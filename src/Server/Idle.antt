-- ===== src/Server/Idle.antt =====
-- What a script that polls the idle time gets to see, and a request for a static file.
use qemu_snapshot_web_manage.Prelude.{
  ℕ, ◌-◌, ◌≤◌, ◌≡◌, ◌≢◌, refl, Bool, true, false, not, arith, Bytes, codes, is_prefix,
  if◌then◌else◌, strcmp_eq,
}
use qemu_snapshot_web_manage.Prelude.Int.{pos}
use qemu_snapshot_web_manage.Server.{
  Reply, queued, accepted, Opened, request_handler, handle_api, handle_static, show_long,
  server_idle_seconds, serve_static_file,
}

idle-pos :
    (now later : ℕ) → now ≢ 0 → now ≤ later → server_idle_seconds later now ≡ pos (later - now)
unfolding server_idle_seconds
idle-pos now later h k = ground arith

-- Whenever the last request was, the idle time that is answered is the time that passed since this
-- request itself came in, and this request is then the last one.
pub request_handler_idle :
    (read : Bytes → Opened) (static_dir : Bytes) (now later last : ℕ) (method : Bytes) (seen : Bool)
    → now ≢ 0
    → now ≤ later
    → request_handler read static_dir now later (codes "/api/idle-check") method seen last
      ≡ record {
        last_request_time = now;
        seen = seen;
        reply = queued 200 (codes "text/plain") (show_long (pos (later - now)));
      }
unfolding request_handler handle_api is_prefix strcmp_eq
request_handler_idle read static_dir now later last method seen h k =
    rw (idle-pos now later h k) refl

if-not : (b : Bool) (x y : Reply) → (if not b then x else y) ≡ (if b then y else x)
if-not true x y = refl
if-not false x y = refl

-- A request for a path outside `/api/` takes two calls: the first only marks it, and the second
-- answers `GET` with the file and any other method with 405.
pub request_handler_twice :
    (read : Bytes → Opened) (static_dir : Bytes) (now later last now' later' : ℕ)
    (url method : Bytes)
    → is_prefix url (codes "/api/") ≡ false
    → let first = request_handler read static_dir now later url method false last in
      let second =
        request_handler read static_dir now' later' url method first.seen first.last_request_time in
      (first.reply ≡ accepted)
      × (second.reply ≡ (
          if strcmp_eq method (codes "GET")
          then (serve_static_file read static_dir url).reply
          else queued 405 (codes "text/plain") (codes "Method Not Allowed")))
unfolding request_handler handle_static
request_handler_twice read static_dir now later last now' later' url method e =
    rw e (refl, if-not (strcmp_eq method (codes "GET")) _ _)
