-- ===== src/Moman/SocketNames.antt =====
-- Which sockets the manager takes for those of monitors and scrapers.
use Prim.Native.Char.{Char}
use Prim.Native.String.{◌++◌, count, [], ◌∷◌}
use text.Mathlib.TextLemmas.{cons-append, nil-append}
use kekmonitors_cpp.Prelude.{
  suc, ◌+◌, String, ◌≡◌, refl, Option, none, some, str_eq, if◌then◌else◌, ap, ◌∙◌,
}
use native.Mathlib.Numerals.{add-one}
use kekmonitors_cpp.Core.Codes.{MonitorOrScraper, monitor, scraper}
use kekmonitors_cpp.Text.{begins, rfind, drop}
use kekmonitors_cpp.Text.Laws.{rfind-append, rfind-begins, drop-append, take-append, drop-suc}
use kekmonitors_cpp.Moman.Add.{kind_name}
use kekmonitors_cpp.Moman.Sockets.{parse_socket_name}

abbrev dot : Char
dot = "."

dot-cons : (u : String) → "." ++ u ≡ dot ∷ u
dot-cons u = cons-append dot [] u ∙ ap (λ (t : String). dot ∷ t) (nil-append u)

-- The text splits at its last dot.
rfind-dot : (a u : String) → rfind "." u ≡ none → rfind "." (a ++ ("." ++ u)) ≡ some (count a)
unfolding begins
rfind-dot a u h = rw (dot-cons u) (rfind-append "." a (dot ∷ u) (rfind-begins "." dot u refl h))

drop-dot : (a u : String) → drop (count a + 1) (a ++ ("." ++ u)) ≡ u
unfolding drop
drop-dot a u =
    let after : drop (suc (count a)) (a ++ (dot ∷ u)) ≡ u =
      drop-suc (count a) (a ++ (dot ∷ u)) ∙ rw (drop-append a (dot ∷ u)) refl in
    rw (dot-cons u, add-one (count a)) after

parse_lem :
    (a k : String) (o : Option (MonitorOrScraper × String))
    → rfind "." k ≡ none
    → (if str_eq a "Monitor"
        then some (monitor, k)
        else if str_eq a "Scraper"
        then some (scraper, k)
        else none)
      ≡ o
    → parse_socket_name (a ++ ("." ++ k)) ≡ o
unfolding parse_socket_name
parse_lem a k o h q =
    rw (rfind-dot a k h, parse_socket_name) (rw (take-append a ("." ++ k), drop-dot a k) q)

-- The socket "<kind>.<class name>" belongs to the kind and the class name, if the class name has no
-- dot.
pub parse_socket_name-kind_name :
    (m : MonitorOrScraper) (class_name : String)
    → rfind "." class_name ≡ none
    → parse_socket_name (kind_name m ++ ("." ++ class_name)) ≡ some (m, class_name)
parse_socket_name-kind_name monitor k h = parse_lem "Monitor" k (some (monitor, k)) h refl
parse_socket_name-kind_name scraper k h = parse_lem "Scraper" k (some (scraper, k)) h refl
