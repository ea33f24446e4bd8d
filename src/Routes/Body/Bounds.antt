-- ===== src/Routes/Body/Bounds.antt =====
-- The block of a request body has room for the body and its NUL.
use qemu_snapshot_web_manage.Prelude.{
  ℕ, ◌+◌, ◌≤◌, ◌≡◌, refl, none, some, [], ◌∷◌, ◌++◌, arith, length, length-append, Bytes, sym,
  append-nil,
}
use qemu_snapshot_web_manage.Routes.Body.{Context, bytes_of, grown, request_context_append}

-- A context holds its body: nothing is there before the first byte, and then the NUL fits too.
abbrev pub IsHeld : Context → Type 0
IsHeld ctx = elim ctx.body [ none ↦ Unit | some body ↦ length body + 1 ≤ ctx.body_alloc ]

grown-le : (needed alloc : ℕ) → needed ≤ grown needed alloc
grown-le needed alloc = ground arith

-- Appending keeps the body in its block, of whatever size the piece is, and puts the piece behind it.
pub request_context_append-IsHeld :
    (ctx : Context) (piece : Bytes)
    → IsHeld ctx
    → IsHeld (request_context_append ctx piece)
      × (bytes_of (request_context_append ctx piece).body ≡ bytes_of ctx.body ++ piece)
unfolding request_context_append
request_context_append-IsHeld ctx [] held = (held, sym (append-nil (bytes_of ctx.body)))
request_context_append-IsHeld ctx (c ∷ piece) held =
    let room = grown-le (length (bytes_of ctx.body) + length (c ∷ piece) + 1) ctx.body_alloc in
    let size = length-append (bytes_of ctx.body) (c ∷ piece) in (omega (arith, room, size), refl)
