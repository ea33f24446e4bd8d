-- ===== src/Routes/Dispatch/Upload.antt =====
-- A request with a body comes in many calls of `route_dispatch`, and is answered once.
use qemu_snapshot_web_manage.Prelude.{
  ◌≡◌, ◌≢◌, refl, sym, ap, Bool, true, ◌||◌, Option, none, some, List, [], ◌∷◌, ◌++◌, append_assoc,
  append-nil, Bytes, All,
}
use qemu_snapshot_web_manage.Routes.{Host, Site}
use qemu_snapshot_web_manage.Routes.Body.{
  Context, bytes_of, request_context_new, request_context_append,
}
use qemu_snapshot_web_manage.Routes.Browse.{Directories}
use qemu_snapshot_web_manage.Routes.Dispatch.{
  Request, Reply, more, queued, Dispatched, is_post, is_delete, is_put, run_route, route_of,
  route_dispatch,
}

-- The pieces in one.
abbrev pub concat : List Bytes → Bytes
concat [] = []
concat (piece ∷ pieces) = piece ++ concat pieces

-- `NULL` for a request without data.
abbrev pub body_in : List Bytes → Option Bytes
body_in [] = none
body_in (piece ∷ pieces) = some (concat (piece ∷ pieces))

abbrev pub has_body : Bytes → Bool
has_body method = is_post method || is_delete method || is_put method

abbrev extended : Option Bytes → List Bytes → Option Bytes
extended body [] = body
extended body (piece ∷ pieces) = some (bytes_of body ++ concat (piece ∷ pieces))

extended-none : (pieces : List Bytes) → extended none pieces ≡ body_in pieces
extended-none [] = refl
extended-none (piece ∷ pieces) = refl

extended-append :
    (body : Option Bytes) (piece : Bytes) (pieces : List Bytes)
    → extended (some (bytes_of body ++ piece)) pieces
      ≡ some (bytes_of body ++ concat (piece ∷ pieces))
extended-append body piece [] = ap (λ p. some (bytes_of body ++ p)) (sym (append-nil piece))
extended-append body piece (next ∷ pieces) =
    ap some (append_assoc (bytes_of body) piece (concat (next ∷ pieces)))

module _ {W : Type 0} (h : Host W) (d : Directories) (q : Request) where
  -- The calls of the server: one for each piece, and one without data.
  unfoldable pub calls : Option Context → List Bytes → Site W → List Reply × Dispatched W
  calls context [] s = let last = route_dispatch h d q context [] s in (last.reply ∷ [], last)
  calls context (piece ∷ pieces) s =
      let one = route_dispatch h d q context piece s in
      let (replies, last) = calls one.context pieces one.site in (one.reply ∷ replies, last)

  -- The answers to all calls but the last.
  abbrev pub waiting : List Bytes → List Reply → List Reply
  waiting [] replies = replies
  waiting (piece ∷ pieces) replies = more ∷ waiting pieces replies

  -- The calls with these pieces: all but the last are answered with `MHD_YES` alone and change nothing,
  -- the last with what the handler gives for the body.
  abbrev pub IsAnswered : List Bytes → Option Bytes → Site W → List Reply × Dispatched W → Type 0
  IsAnswered pieces body s (replies, last) =
      (replies ≡ waiting pieces (queued (run_route h d q body (route_of q.method q.url) s).0 ∷ []))
      × (last.site ≡ (run_route h d q body (route_of q.method q.url) s).1)

  calls-received :
      (ctx : Context) (pieces : List Bytes) (s : Site W)
      → has_body q.method ≡ true
      → All (λ piece. piece ≢ []) pieces
      → IsAnswered pieces (extended ctx.body pieces) s (calls (some ctx) pieces s)
  unfolding calls route_dispatch request_context_append
  calls-received ctx [] s m a = rw m (refl, refl)
  calls-received ctx ([] ∷ pieces) s m a = absurd (a.0 refl)
  calls-received ctx ((c ∷ piece) ∷ pieces) s m a =
      let next = request_context_append ctx (c ∷ piece) in
      let later : IsAnswered pieces (some (bytes_of ctx.body ++ concat ((c ∷ piece) ∷ pieces))) s
          (calls (some next) pieces s) =
        rw (extended-append ctx.body (c ∷ piece) pieces) at (calls-received next pieces s m a.1) in
      rw m (ap (λ r. more ∷ r) later.0, later.1)

  -- A request by `POST`, `PUT` or `DELETE` whose body comes in any number of pieces, none of them empty:
  -- every call but the last is answered with `MHD_YES` alone, and the last runs the handler of the path,
  -- once, on the pieces in one and on the state from before the first call.
  pub route_dispatch-IsAnswered :
      (pieces : List Bytes) (s : Site W)
      → has_body q.method ≡ true
      → All (λ piece. piece ≢ []) pieces
      → IsAnswered ([] ∷ pieces) (body_in pieces) s (calls none ([] ∷ pieces) s)
  unfolding calls route_dispatch request_context_new
  route_dispatch-IsAnswered pieces s m a =
      let later : IsAnswered pieces (body_in pieces) s (calls (some request_context_new) pieces s) =
        rw (extended-none pieces) at (calls-received request_context_new pieces s m a) in
      rw m (ap (λ r. more ∷ r) later.0, later.1)
