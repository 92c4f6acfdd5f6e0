-- ===== src/Network/ObjectKind.antt =====
-- `enum ObjectKind`: what an inventory names.
use paritr_node.Prelude.{ℕ, ◌==◌, if◌then◌else◌, Result, ok, err}
use paritr_node.Codec.{CodecError, invalid_tag}

pub data ObjectKind : Type 0 where
  block transaction workshare template : ObjectKind

-- `kind as u8`
abbrev pub to_u8 : ObjectKind → ℕ
to_u8 block = 1
to_u8 transaction = 2
to_u8 workshare = 3
to_u8 template = 4

unfoldable pub try_from : ℕ → Result CodecError ObjectKind
try_from value =
    if value == 1
    then ok block
    else if value == 2
    then ok transaction
    else if value == 3
    then ok workshare
    else if value == 4
    then ok template
    else err (invalid_tag value)
