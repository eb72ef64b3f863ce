-- ===== src/Snprintf/Format.antt =====
-- `preprocess_fmt` rewrites the modifiers of a well-formed format, and nothing else.
use libsolcompat.Snprintf.Piece.{Piece}
