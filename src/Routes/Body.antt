-- ===== src/Routes/Body.antt =====
-- The request body of src/routes.c, which grows with each call of the handler.
pub mod Bounds
use qemu_snapshot_web_manage.Prelude.{
  ℕ, ◌+◌, ◌*◌, Option, none, some, [], ◌∷◌, ◌++◌, ltb, leb, if◌then◌else◌, Bytes, length,
}

-- `body` is the text of the first `body_size` bytes, and `NULL` before any data has come;
-- `body_alloc` is the size of the block that holds it with its NUL.
pub record Context : Type 0 where
  pub body : Option Bytes
  pub body_alloc : ℕ

unfoldable pub request_context_new : Context
request_context_new = record { body = none; body_alloc = 0 }

abbrev pub bytes_of : Option Bytes → Bytes
bytes_of none = []
bytes_of (some body) = body

-- The size of the block once `needed` bytes are in it.
abbrev pub grown : ℕ → ℕ → ℕ
grown needed alloc =
    if ltb alloc needed then (if ltb needed 1024 then 1024 else needed * 2) else alloc

unfoldable pub request_context_append : Context → Bytes → Context
request_context_append ctx [] = ctx
request_context_append ctx (c ∷ data_) = record {
  body = some (bytes_of ctx.body ++ c ∷ data_);
  body_alloc = grown (length (bytes_of ctx.body) + length (c ∷ data_) + 1) ctx.body_alloc;
}
