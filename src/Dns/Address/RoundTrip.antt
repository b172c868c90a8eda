-- ===== src/Dns/Address/RoundTrip.antt =====
-- Printing an address and reading it back.
use qjs_lws.Base.{
  ℕ, ◌+◌, ◌*◌, ◌<◌, ◌≡◌, refl, ap, ◌∙◌, false, List, [], ◌∷◌, ◌++◌, map, Text, All, append_assoc,
  length-append, get_or-length, get_or_behind, length, length-map, returned, arith, ◌==◌,
}
use qjs_lws.Base.Bits.{or_bytes, and_byte}
use qjs_lws.Text.{contains, split, join, number_text}
use qjs_lws.Text.Split.{Free, split-join}
use qjs_lws.Text.Radix.{number_text-Free, number_text_nonempty, colon-NoDigit}
use qjs_lws.Dns.Address.{
  ipv4_to_bytes, ipv4_to_string, ipv6_to_bytes, ipv6_to_string, split_double, has_double,
  group_bytes, group_value, hex_groups, ipv6_groups, colon_parts,
}
use qjs_lws.Dns.Name.Print.{IsByte}
use qjs_lws.Text.Numbers.{JsNumbers, bytes_of-decimal, All-decimal-Free}

-- Four bytes print as a dotted quad that reads back as them.
pub ipv4_to_bytes-to_string :
    (js : JsNumbers) (a b c d : ℕ)
    → All IsByte (a ∷ b ∷ c ∷ d ∷ [])
    → ipv4_to_bytes js (ipv4_to_string (a ∷ b ∷ c ∷ d ∷ [])) ≡ returned (a ∷ b ∷ c ∷ d ∷ [])
unfolding ipv4_to_bytes ipv4_to_string
ipv4_to_bytes-to_string js a b c d h =
    let four : List ℕ = a ∷ b ∷ c ∷ d ∷ [] in
    let parts =
      split-join b'.' (number_text 10 a) (map (number_text 10) (b ∷ c ∷ d ∷ []))
        (All-decimal-Free four h) in
    rw (parts, bytes_of-decimal js four h)

-- The bytes of 16-bit groups.
abbrev pub pair_bytes : List (ℕ × ℕ) → List ℕ
pair_bytes [] = []
pair_bytes ((hi, lo) ∷ ps) = hi ∷ lo ∷ pair_bytes ps

abbrev pub BytePair : ℕ × ℕ → Type 0
BytePair (hi, lo) = (hi < 256) × (lo < 256)

abbrev hex : ℕ × ℕ → Text
hex (hi, lo) = number_text 16 (hi * 256 + lo)

hex_groups-pairs :
    (ps : List (ℕ × ℕ)) (pre : List ℕ)
    → All BytePair ps
    → hex_groups (length ps) (pre ++ pair_bytes ps) (length pre) ≡ map hex ps
unfolding hex_groups
hex_groups-pairs [] pre h = refl
hex_groups-pairs ((hi, lo) ∷ ps) pre ((hhi, hlo), h) =
    let pre' = pre ++ hi ∷ lo ∷ [] in
    ground (
      arith,
      get_or-length pre (lo ∷ pair_bytes ps) hi 0,
      get_or_behind pre (pair_bytes ps) hi lo 0,
      or_bytes hi lo,
      hex_groups-pairs ps pre' h,
      append_assoc pre (hi ∷ lo ∷ []) (pair_bytes ps),
      length-append pre (hi ∷ lo ∷ []),
    )

-- Colon-free parts that are not empty.
abbrev IsGroup : Text → Type 0
IsGroup g = Free b':' g × (0 < length g)

abbrev StartsGroup : Text → Type 0
StartsGroup [] = ⊥
StartsGroup (c ∷ s) = (c == b':') ≡ false

has_double-Free : (g : Text) → Free b':' g → has_double g ≡ false
unfolding has_double contains
has_double-Free [] h = refl
has_double-Free (c ∷ []) h = refl
has_double-Free (c ∷ d ∷ g) h = ground (arith, has_double-Free (d ∷ g))

has_double-append :
    (g t : Text) → IsGroup g → StartsGroup t → has_double (g ++ b':' ∷ t) ≡ has_double t
unfolding has_double contains
has_double-append [] t (h, n) st = absurd (omega arith)
has_double-append (c ∷ g) [] h st = absurd st
has_double-append (c ∷ []) (x ∷ t) (h, n) st = ground arith
has_double-append (c ∷ d ∷ g) (x ∷ t) (h, n) st =
    ground (arith, has_double-append (d ∷ g) (x ∷ t) (ground arith, omega arith) st)

join-StartsGroup : (g : Text) (gs : List Text) → IsGroup g → StartsGroup (join b':' (g ∷ gs))
unfolding join contains
join-StartsGroup [] gs (h, n) = absurd (omega arith)
join-StartsGroup (c ∷ g) [] (h, n) = ground arith
join-StartsGroup (c ∷ g) (h' ∷ gs) (h, n) = ground arith

has_double-join :
    (g : Text) (gs : List Text) → All IsGroup (g ∷ gs) → has_double (join b':' (g ∷ gs)) ≡ false
unfolding join
has_double-join g [] ((h, n), _) = has_double-Free g h
has_double-join g (g' ∷ gs) (h, (h', hs)) =
    has_double-append g (join b':' (g' ∷ gs)) h (join-StartsGroup g' gs h')
    ∙ has_double-join g' gs (h', hs)

split_double-single : (s : Text) → has_double s ≡ false → split_double s ≡ s ∷ []
unfolding has_double split_double
split_double-single [] h = refl
split_double-single (c ∷ []) h = refl
split_double-single (c ∷ d ∷ s) h = ground (arith, split_double-single (d ∷ s))

hex-IsGroup : (p : ℕ × ℕ) → IsGroup (hex p)
hex-IsGroup (hi, lo) = (
  number_text-Free b':' 16 (hi * 256 + lo) (omega arith) (omega arith) colon-NoDigit,
  number_text_nonempty 16 (hi * 256 + lo),
)

All-hex : (ps : List (ℕ × ℕ)) → All IsGroup (map hex ps)
All-hex [] = tt
All-hex (p ∷ ps) = (hex-IsGroup p, All-hex ps)

All-group-Free : (gs : List Text) → All IsGroup gs → All (Free b':') gs
All-group-Free [] h = tt
All-group-Free (g ∷ gs) ((f, _), h) = (f, All-group-Free gs h)

group_value-hex : (js : JsNumbers) (g : Text) → 0 < length g → group_value js g ≡ js.parse_hex g
unfolding group_value
group_value-hex js [] h = absurd (omega arith)
group_value-hex js (c ∷ g) h = refl

group_bytes-hex :
    (js : JsNumbers) (ps : List (ℕ × ℕ))
    → All BytePair ps
    → group_bytes js (map hex ps) ≡ pair_bytes ps
unfolding group_bytes
group_bytes-hex js [] h = refl
group_bytes-hex js ((hi, lo) ∷ ps) ((hhi, hlo), h) =
    let v = hi * 256 + lo in
    ground (
      arith,
      group_value-hex js (hex (hi, lo)) (number_text_nonempty 16 v),
      js.parse_hex-number v,
      and_byte v,
      group_bytes-hex js ps h,
    )

colon_parts-group : (s : Text) → StartsGroup s → colon_parts s ≡ split b':' s
unfolding colon_parts
colon_parts-group [] h = absurd h
colon_parts-group (c ∷ s) h = refl

ipv6_groups-join :
    (g : Text) (gs : List Text) → All IsGroup (g ∷ gs) → ipv6_groups (join b':' (g ∷ gs)) ≡ g ∷ gs
unfolding ipv6_groups
ipv6_groups-join g gs h =
    let plain = has_double-join g gs h in
    rw (plain, split_double-single (join b':' (g ∷ gs)) plain)
      (colon_parts-group (join b':' (g ∷ gs)) (join-StartsGroup g gs h.0)
        ∙ split-join b':' g gs (All-group-Free (g ∷ gs) h))

ipv6_to_string-pairs :
    (ps : List (ℕ × ℕ))
    → length ps ≡ 8
    → All BytePair ps
    → ipv6_to_string (pair_bytes ps) ≡ join b':' (map hex ps)
unfolding ipv6_to_string
ipv6_to_string-pairs ps eight h = ap (join b':') (rw eight at (hex_groups-pairs ps [] h))

ipv6_to_bytes-groups :
    (js : JsNumbers) (str : Text) (gs : List Text)
    → ipv6_groups str ≡ gs
    → length gs ≡ 8
    → ipv6_to_bytes js str ≡ returned (group_bytes js gs)
unfolding ipv6_to_bytes
ipv6_to_bytes-groups js str gs e eight = rw (e, eight)

-- Sixteen bytes print as eight groups that read back as them.
pub ipv6_to_bytes-to_string :
    (js : JsNumbers) (ps : List (ℕ × ℕ))
    → length ps ≡ 8
    → All BytePair ps
    → ipv6_to_bytes js (ipv6_to_string (pair_bytes ps)) ≡ returned (pair_bytes ps)
ipv6_to_bytes-to_string js [] eight h = absurd (omega arith)
ipv6_to_bytes-to_string js (p ∷ ps) eight h =
    let groups = map hex (p ∷ ps) in
    let printed = ipv6_groups-join (hex p) (map hex ps) (All-hex (p ∷ ps)) in
    rw (ipv6_to_string-pairs (p ∷ ps) eight h) (
      ipv6_to_bytes-groups js (join b':' groups) groups printed
        (omega (arith, length-map (p ∷ ps) hex))
      ∙ ap returned (group_bytes-hex js (p ∷ ps) h))
