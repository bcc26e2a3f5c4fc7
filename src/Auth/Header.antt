-- ===== src/Auth/Header.antt =====
-- The functions of `str` that src/middleware.rs calls.
use app_center_ratings.Prelude.{
  ℕ, ◌-◌, Bool, ◌&&◌, ◌||◌, List, [], ◌∷◌, leb, ◌==◌, if◌then◌else◌, length, drop, Text, text_eq,
}

-- `char::is_whitespace`, the property White_Space of Unicode.
unfoldable pub is_whitespace : ℕ → Bool
is_whitespace c =
    leb 0x9 c && leb c 0xd
    || c == 0x20
    || c == 0x85
    || c == 0xa0
    || c == 0x1680
    || leb 0x2000 c && leb c 0x200a
    || c == 0x2028
    || c == 0x2029
    || c == 0x202f
    || c == 0x205f
    || c == 0x3000

-- A part that is not empty.
abbrev push_part : Text → List Text → List Text
push_part [] parts = parts
push_part (c ∷ w) parts = (c ∷ w) ∷ parts

-- The text up to the first white space, and the parts behind it.
unfoldable pub scan_parts : Text → Text × List Text
unfolding is_whitespace
scan_parts [] = ([], [])
scan_parts (c ∷ t) =
    let (w, parts) = scan_parts t in
    if is_whitespace c then ([], push_part w parts) else (c ∷ w, parts)

-- `str::split_whitespace`.
unfoldable pub split_whitespace : Text → List Text
unfolding scan_parts
split_whitespace t = let (w, parts) = scan_parts t in push_part w parts

-- `str::ends_with`.
unfoldable pub ends_with : Text → Text → Bool
unfolding text_eq
ends_with t suffix =
    leb (length suffix) (length t) && text_eq (drop (length t - length suffix) t) suffix
