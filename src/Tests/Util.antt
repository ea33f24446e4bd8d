-- ===== src/Tests/Util.antt =====
-- The helpers of src/util.c and src/html_render.c on concrete texts.
use qemu_snapshot_web_manage.Prelude.{◌≡◌, refl, some, [], ◌∷◌, ◌++◌, arith, codes}
use qemu_snapshot_web_manage.Prelude.Int.{pos}
use qemu_snapshot_web_manage.Util.Url.{url_encode, url_decode}
use qemu_snapshot_web_manage.Util.Url.RoundTrip.{url_decode-url_encode}
use qemu_snapshot_web_manage.Util.Path.{path_segment}
use qemu_snapshot_web_manage.Util.Path.Segments.{path_segment-join, join}
use qemu_snapshot_web_manage.Util.Base64.{base64_decode}
use qemu_snapshot_web_manage.Util.Base64.RoundTrip.{base64_decode-base64_encode, base64_encode}
use qemu_snapshot_web_manage.Util.Escape.{json_escape, html_escape}
use qemu_snapshot_web_manage.Util.Escape.Json.{read_string-json_escape, read_string}

url_encode_test : url_encode (codes "a b/c") ≡ codes "a%20b/c"
unfolding url_encode
url_encode_test = refl

url_decode_test : url_decode (some (codes "a%20b+c%zz")) ≡ some (codes "a b c%zz")
unfolding url_decode
url_decode_test = refl

url_decode-url_encode_example : url_decode (some (url_encode (codes "a b"))) ≡ some (codes "a b")
url_decode-url_encode_example = url_decode-url_encode (codes "a b") (ground arith)

path_segment_test : path_segment (some (codes "/api/vms/web")) (pos 2) ≡ some (codes "web")
unfolding path_segment
path_segment_test = refl

path_segment-join_example :
    path_segment (some (join (codes "vms" ∷ codes "w" ∷ []))) (pos 1) ≡ some (codes "w")
path_segment-join_example = path_segment-join (codes "vms" ∷ codes "w" ∷ []) 1 (ground arith)

base64_decode_test : base64_decode (some (codes "aGk=")) ≡ some (codes "hi")
unfolding base64_decode
base64_decode_test = refl

base64_decode-base64_encode_example :
    base64_decode (some (base64_encode (codes "hi"))) ≡ some (codes "hi")
base64_decode-base64_encode_example = base64_decode-base64_encode (codes "hi") (ground arith)

json_escape_test : json_escape (some (codes "a\"b")) ≡ codes "a\\\"b"
unfolding json_escape
json_escape_test = refl

read_string-json_escape_example :
    read_string (json_escape (some (codes "a\"b")) ++ b'"' ∷ codes ", ")
    ≡ some (codes "a\"b", codes ", ")
read_string-json_escape_example = read_string-json_escape (codes "a\"b") (codes ", ") (ground arith)

html_escape_test : html_escape (some (codes "<a>")) ≡ codes "&lt;a&gt;"
unfolding html_escape
html_escape_test = refl
