-- ===== src/Server/Static.antt =====
-- Static files: which paths are opened, and with which type they are sent.
use qemu_snapshot_web_manage.Prelude.{
  ℕ, ◌≡◌, ◌≢◌, refl, sym, ap, ◌∙◌, none, some, [], ◌∷◌, ◌++◌, arith, inl, inr, Option-cases,
  Bool-cases, Bytes, codes, Without, strcmp_eq, strstr, strstr-ne-none,
}
use mathlib.Core.Option.{some-injective}
use qemu_snapshot_web_manage.Server.{
  Opened, strrchr, mime_of, mime_from, guess_mime, relative, serve_found, serve_static_file,
}

strrchr-none : (c : ℕ) (s : Bytes) → Without c s → strrchr s c ≡ none
unfolding strrchr
strrchr-none c [] h = refl
strrchr-none c (x ∷ s) h = ground (arith, strrchr-none c s h.1)

strrchr-append : (c : ℕ) (a s : Bytes) → Without c s → strrchr (a ++ c ∷ s) c ≡ some (c ∷ s)
unfolding strrchr
strrchr-append c [] s h = ground (arith, strrchr-none c s h)
strrchr-append c (x ∷ a) s h = ground (arith, strrchr-append c a s h)

-- The type of a file is that of its last extension, whatever stands before it, dots and slashes too.
pub guess_mime-append :
    (a ext : Bytes) → Without b'.' ext → guess_mime (a ++ b'.' ∷ ext) ≡ mime_of (b'.' ∷ ext)
unfolding guess_mime
guess_mime-append a ext h = ap mime_from (strrchr-append b'.' a ext h)

append-cancel : (p s t : Bytes) → p ++ s ≡ p ++ t → s ≡ t
append-cancel [] s t e = e
append-cancel (x ∷ p) s t e = append-cancel p s t (ground arith)

index_clean : strstr (codes "/index.html") (codes "..") ≡ none
unfolding strstr
index_clean = refl

relative_dots :
    (url a b : Bytes) → strstr url (codes "..") ≡ none → relative url ≢ a ++ (codes ".." ++ b)
relative_dots url a b missed e = elim (Bool-cases (strcmp_eq url (codes "/"))) [
  | inl root ↦
      let index : codes "/index.html" ≡ a ++ (codes ".." ++ b) = rw root at e in
      strstr-ne-none a (codes "..") b (ap (λ s. strstr s (codes "..")) (sym index) ∙ index_clean)
  | inr other ↦
      let same : url ≡ a ++ (codes ".." ++ b) = rw other at e in
      strstr-ne-none a (codes "..") b (ap (λ s. strstr s (codes "..")) (sym same) ∙ missed)
]

-- Whatever the URL, no file is opened at a path that has two dots in a row behind the static directory.
pub serve_static_file_contained :
    (read : Bytes → Opened) (static_dir url a b : Bytes)
    → ¬ (
        (serve_static_file read static_dir url).opened
        ≡ some (static_dir ++ (a ++ (codes ".." ++ b))))
unfolding serve_static_file serve_found
serve_static_file_contained read static_dir url a b e =
    elim (Option-cases (strstr url (codes ".."))) [
      | inl missed ↦
          let here : some (static_dir ++ relative url)
              ≡ some (static_dir ++ (a ++ (codes ".." ++ b))) =
            rw missed at e in
          relative_dots url a b missed (
            append-cancel static_dir (relative url) (a ++ (codes ".." ++ b))
              (some-injective _ _ here))
      | inr (dots, hit) ↦
          let nothing : none ≡ some (static_dir ++ (a ++ (codes ".." ++ b))) = rw hit at e in cc
    ]
