-- ===== src/Tests/Cache.antt =====
-- Runs of the DNS cache.
use qjs_lws.Base.{
  ℕ, ◌≡◌, ◌≤◌, ◌<◌, ◌+◌, ◌-◌, ◌*◌, ◌/◌, ◌&&◌, ◌||◌, not, ◌==◌, length, refl, none, some, List, [],
  ◌∷◌, text_eq, if◌then◌else◌, arith,
}
use qjs_lws.Text.{text}
use qjs_lws.Dict.{insert, lookup}
use qjs_lws.Dns.Rdata.{target}
use qjs_lws.Dns.Message.{Rr}
use qjs_lws.Dns.Cache.{get, set, get_entry, with_ttl, get-set_timed, get-set_bounds}

abbrev rrs : List Rr
rrs =
    record {
      name = text "lws.io.";
      rtype = 2;
      rclass = some 1;
      ttl = 60;
      rdata = target (text "ns.");
    }
    ∷ []

get-set_timed_example : (get 10000 (text "NS:lws.io.") (set 0 (text "NS:lws.io.") rrs 60 [])).1 ≡ (
    if text_eq (text "NS:lws.io.") (text "NS:lws.io.") && not (length rrs == 0 || 60 == 0)
    then (if (0 + 60 * 1000 - 10000) / 1000 == 0
        then none
        else some (with_ttl ((0 + 60 * 1000 - 10000) / 1000) rrs))
    else (get 10000 (text "NS:lws.io.") []).1)
get-set_timed_example = get-set_timed 0 10000 60 (text "NS:lws.io.") (text "NS:lws.io.") rrs []

found : (get 10000 (text "a") (set 0 (text "a") rrs 60 [])).1 ≡ some (with_ttl 50 rrs)
unfolding get set get_entry insert lookup text_eq
found = refl

get-set_bounds_example :
    (left : ℕ) × (with_ttl 50 rrs ≡ with_ttl left rrs) × (0 < left) × (left ≤ 60)
get-set_bounds_example =
    get-set_bounds 0 10000 60 (text "a") rrs (with_ttl 50 rrs) [] (omega arith) (omega arith)
      (omega arith) found
