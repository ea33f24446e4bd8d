-- ===== src/Util.antt =====
-- src/util.c, and the byte encoders of src/html_render.c: the escaping and decoding of text.
pub mod Url
pub mod Path
pub mod Base64
pub mod Escape
