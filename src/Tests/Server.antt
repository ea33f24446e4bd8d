-- ===== src/Tests/Server.antt =====
-- The request handler of src/server.c on concrete requests.
use qemu_snapshot_web_manage.Prelude.{◌≡◌, refl, none, some, ◌++◌, Bytes, codes, strstr}
use qemu_snapshot_web_manage.Prelude.Int.{pos}
use qemu_snapshot_web_manage.Server.{
  queued, Opened, regular, show_long, digits, serve_static_file, serve_found,
}
use qemu_snapshot_web_manage.Server.Static.{serve_static_file_contained}

-- Every path holds the same file.
abbrev read : Bytes → Opened
read path = regular (codes "x")

show_long_test : show_long (pos 603) ≡ codes "603"
unfolding show_long digits
show_long_test = refl

traversal_test :
    serve_static_file read (codes "/s") (codes "/../etc/passwd")
    ≡ record { opened = none; reply = queued 403 (codes "text/plain") (codes "Forbidden") }
unfolding serve_static_file serve_found strstr
traversal_test = refl

serve_static_file_contained_example : ¬ (
    (serve_static_file read (codes "/s") (codes "/../x")).opened
    ≡ some (codes "/s" ++ (codes "/" ++ (codes ".." ++ codes "/x"))))
serve_static_file_contained_example =
    serve_static_file_contained read (codes "/s") (codes "/../x") (codes "/") (codes "/x")
