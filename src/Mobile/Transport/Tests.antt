-- ===== src/Mobile/Transport/Tests.antt =====
-- An answer of the server with one change.
use flow_logix.Common.{◌≡◌, ◌↔◌, refl, true, none, some, [], ◌∷◌, codes, cmp}
use flow_logix.Crdt.Json.{
  Json, null, number, string, array, object, no_items, item, no_members, member,
}
use flow_logix.Mobile.Transport.{
  ResponseBody, response, parse, parse_changes, is_change, pull, post, strip_slashes, authorization,
}
use flow_logix.Mobile.Transport.Shapes.{IsResponse, parse_iff}

abbrev change : Json
change = object (
    member (codes "id") (string (codes "c1")) (
      member (codes "fields") (object (member (codes "title") (string (codes "A")) no_members)) (
        member (codes "clocks") (object (member (codes "title") (number 7) no_members))
          (member (codes "deletedAt") null no_members))))

abbrev answer : Json
answer = object (
    member (codes "changes") (array (item change no_items)) (
      member (codes "checkpoint") (number 9) (
        member (codes "acceptedIds") (array (item (string (codes "c1")) (item null no_items)))
          no_members)))

abbrev body : ResponseBody
body = record { changes = change ∷ []; checkpoint = 9; accepted_ids = codes "c1" ∷ [] }

lets_through : (parse answer ≡ some body) ↔ IsResponse answer body
lets_through = parse_iff answer body

parsed : parse answer ≡ some body
unfolding parse parse_changes is_change cmp
parsed = refl

pulled :
    pull
      (λ url auth sent. response true (some answer))
      (codes "https://edge/")
      none
      (codes "cards")
      3
    ≡ some (change ∷ [], 9)
unfolding pull post strip_slashes authorization parse parse_changes is_change cmp
pulled = refl
