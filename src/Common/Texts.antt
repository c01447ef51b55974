-- ===== src/Common/Texts.antt =====
-- Template literals and `includes` of texts.
use Prim.Native.String.{String, ◌++◌, find, len}
use mathlib.Core.Bool.{Bool}
use peerx_backend.Common.Tests.{leb}

-- `${a}:${b}`.
abbrev pub with_colon : String → String → String
with_colon a b = a ++ ":" ++ b

-- `text.includes(part)`: the position of a text that is not there is past the end.
abbrev pub includes : String → String → Bool
includes text part = leb (find text part) (len text)
