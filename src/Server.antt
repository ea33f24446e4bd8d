-- ===== src/Server.antt =====
-- src/server.c: the request handler, static files and the idle time. The clock, the file system and
-- the table of routes enter as parameters and results: `now` and `later` are what `time` says, `read`
-- is what opening a path gives, and `routed` is a call that goes on to `route_dispatch`.
pub mod Daemon
pub mod Idle
pub mod Static
use qemu_snapshot_web_manage.Prelude.{
  ℕ, zero, suc, ◌+◌, ◌-◌, ◌/◌, ◌%◌, Bool, true, false, not, ◌&&◌, Option, none, some, [], ◌∷◌, ◌++◌,
  ◌==◌, leb, ltb, if◌then◌else◌, Bytes, codes, strcmp_eq, strstr, is_prefix,
}
use qemu_snapshot_web_manage.Prelude.Int.{ℤ, pos, negsuc, neg_ℕ}

-- What the handler answers: a response that is queued, `MHD_YES` or `MHD_NO` alone, or what
-- `route_dispatch` answers.
pub data Reply : Type 0 where
  queued : ℕ → Bytes → Bytes → Reply
  accepted refused routed : Reply

-- `long` times are seconds since 1970.
abbrev pub seconds_between : ℕ → ℕ → ℤ
seconds_between now last = if leb last now then pos (now - last) else neg_ℕ (last - now)

unfoldable pub server_idle_seconds : ℕ → ℕ → ℤ
server_idle_seconds now last = if last == 0 then pos 0 else seconds_between now last

-- `strrchr(path, c)`
unfoldable pub strrchr : Bytes → ℕ → Option Bytes
strrchr [] c = none
strrchr (x ∷ s) c = elim (strrchr s c) [
  | some r ↦ some r
  | none ↦ if x == c then some (x ∷ s) else none
]

unfoldable pub mime_of : Bytes → Bytes
mime_of dot =
    if strcmp_eq dot (codes ".html")
    then codes "text/html"
    else if strcmp_eq dot (codes ".css")
    then codes "text/css"
    else if strcmp_eq dot (codes ".js")
    then codes "application/javascript"
    else if strcmp_eq dot (codes ".json")
    then codes "application/json"
    else if strcmp_eq dot (codes ".png")
    then codes "image/png"
    else if strcmp_eq dot (codes ".svg")
    then codes "image/svg+xml"
    else if strcmp_eq dot (codes ".ico")
    then codes "image/x-icon"
    else codes "application/octet-stream"

abbrev pub mime_from : Option Bytes → Bytes
mime_from none = codes "application/octet-stream"
mime_from (some dot) = mime_of dot

unfoldable pub guess_mime : Bytes → Bytes
guess_mime path = mime_from (strrchr path b'.')

-- What opening a path gives: nothing, something that is no regular file, a file that is read short,
-- or the contents of a file.
pub data Opened : Type 0 where
  unopened irregular cut_short : Opened
  regular : Bytes → Opened

-- The path that was opened, and the answer.
pub record Served : Type 0 where
  pub opened : Option Bytes
  pub reply : Reply

abbrev pub not_found : Reply
not_found =
    queued 404 (codes "text/html") (codes "<html><body><h1>404 Not Found</h1></body></html>")

unfoldable pub answer_file : Bytes → Opened → Reply
answer_file filepath unopened = not_found
answer_file filepath irregular = not_found
answer_file filepath cut_short = refused
answer_file filepath (regular data_read) = queued 200 (guess_mime filepath) data_read

abbrev pub relative : Bytes → Bytes
relative url = if strcmp_eq url (codes "/") then codes "/index.html" else url

unfoldable pub serve_found : (Bytes → Opened) → Bytes → Bytes → Option Bytes → Served
serve_found read static_dir url (some dots) = record {
  opened = none;
  reply = queued 403 (codes "text/plain") (codes "Forbidden");
}
serve_found read static_dir url none =
    let filepath = static_dir ++ relative url in
    record { opened = some filepath; reply = answer_file filepath (read filepath) }

unfoldable pub serve_static_file : (Bytes → Opened) → Bytes → Bytes → Served
serve_static_file read static_dir url = serve_found read static_dir url (strstr url (codes ".."))

-- `%ld`: a number below 2 ^ 63 has at most 19 digits.
unfoldable pub digits : ℕ → ℕ → Bytes
digits zero n = []
digits (suc fuel) n =
    let rest = digits fuel (n / 10) in
    if ltb n 10 then (b'0' + n) ∷ [] else rest ++ (b'0' + n % 10) ∷ []

unfoldable pub show_long : ℤ → Bytes
show_long (pos n) = digits 19 n
show_long (negsuc n) = b'-' ∷ digits 19 (suc n)

-- What a call of the handler leaves behind: the time of the last request, whether the request has
-- been seen before, and the answer.
pub record Handled : Type 0 where
  pub last_request_time : ℕ
  pub seen : Bool
  pub reply : Reply

unfoldable pub handle_api : ℕ → ℕ → Bytes → Bytes → Reply
handle_api now later url method =
    if strcmp_eq url (codes "/api/idle-check")
    then queued 200 (codes "text/plain") (show_long (server_idle_seconds later now))
    else if strcmp_eq method (codes "GET") && strcmp_eq url (codes "/api/ping")
    then queued 200 (codes "text/plain") (codes "pong")
    else routed

unfoldable pub handle_static : (Bytes → Opened) → Bytes → Bytes → Bytes → Bool → Reply
handle_static read static_dir url method false = accepted
handle_static read static_dir url method true =
    if not (strcmp_eq method (codes "GET"))
    then queued 405 (codes "text/plain") (codes "Method Not Allowed")
    else (serve_static_file read static_dir url).reply

-- `str_starts_with` of src/util.c
abbrev str_starts_with : Option Bytes → Option Bytes → Bool
str_starts_with none start = false
str_starts_with (some str) none = false
str_starts_with (some str) (some start) = is_prefix str start

-- `touch_activity` comes first: from then on the time of the last request is `now`.
unfoldable pub request_handler :
    (Bytes → Opened) → Bytes → ℕ → ℕ → Bytes → Bytes → Bool → ℕ → Handled
request_handler read static_dir now later url method seen last_request_time =
    if str_starts_with (some url) (some (codes "/api/"))
    then record { last_request_time = now; seen = seen; reply = handle_api now later url method }
    else record {
      last_request_time = now;
      seen = true;
      reply = handle_static read static_dir url method seen;
    }
