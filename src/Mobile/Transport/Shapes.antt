-- ===== src/Mobile/Transport/Shapes.antt =====
-- Which answers of the server mobile/src/sync/httpSyncTransport.ts lets through, in terms of the
-- shapes of JSON values.
use flow_logix.Common.{◌≡◌, ◌↔◌, refl, sym, ap, ◌∙◌, subst, some, List, [], ◌∷◌, Text, codes, All}
use flow_logix.Crdt.Json.{Json, number, string, array, object, Items, Members}
use flow_logix.Mobile.Transport.{
  is_object, property, member_at, items_of, accepted_in, parse, ResponseBody,
}
use flow_logix.Mobile.Transport.Checked.{IsCheckedChange, IsChecked, parse-IsChecked_iff}
use flow_logix.Mobile.Transport.Values.{
  HasProperties, Holds, Listing, AcceptedIds, is_object-HasProperties, HasProperties-is_object,
  HasProperties-defined, Listing-items_of, items_of-Listing, accepted_at-AcceptedIds,
  AcceptedIds-accepted_at, shaped, held, read,
}

-- An object with a text `id` and with `fields` and `clocks` that have properties.
pub record IsChange (raw : Json) : Type 0 where
  pub members : Members
  pub shape : raw ≡ object members
  pub id : Text
  pub has_id : Holds members (codes "id") (string id)
  pub fields : Json
  pub has_fields : Holds members (codes "fields") fields
  pub fields_hold : HasProperties fields
  pub clocks : Json
  pub has_clocks : Holds members (codes "clocks") clocks
  pub clocks_hold : HasProperties clocks

-- An object with an array `changes` of such changes and a number `checkpoint`, and its body.
pub record IsResponse (raw : Json) (r : ResponseBody) : Type 0 where
  pub members : Members
  pub shape : raw ≡ object members
  pub items : Items
  pub has_changes : Holds members (codes "changes") (array items)
  pub listed : Listing items r.changes
  pub sound : All IsChange r.changes
  pub has_checkpoint : Holds members (codes "checkpoint") (number r.checkpoint)
  pub accepted : AcceptedIds members r.accepted_ids

IsCheckedChange-IsChange : (raw : Json) → IsCheckedChange raw → IsChange raw
IsCheckedChange-IsChange raw c =
    let (ms, shape) = shaped raw (codes "id") (string c.id) c.has_id (λ e. cc) in
    let fields = is_object-HasProperties (property raw (codes "fields")) c.has_fields in
    let clocks = is_object-HasProperties (property raw (codes "clocks")) c.has_clocks in
    record {
      members = ms;
      shape = shape;
      id = c.id;
      has_id = held raw ms shape (codes "id") (string c.id) c.has_id (λ e. cc);
      fields = property raw (codes "fields");
      has_fields = held raw ms shape (codes "fields") _ refl (HasProperties-defined _ fields);
      fields_hold = fields;
      clocks = property raw (codes "clocks");
      has_clocks = held raw ms shape (codes "clocks") _ refl (HasProperties-defined _ clocks);
      clocks_hold = clocks;
    }

IsChange-IsCheckedChange : (raw : Json) → IsChange raw → IsCheckedChange raw
IsChange-IsCheckedChange raw c = record {
  an_object = ap is_object c.shape;
  id = c.id;
  has_id = read raw c.members c.shape (codes "id") (string c.id) c.has_id;
  has_fields =
      ap is_object (read raw c.members c.shape (codes "fields") c.fields c.has_fields)
      ∙ HasProperties-is_object c.fields c.fields_hold;
  has_clocks =
      ap is_object (read raw c.members c.shape (codes "clocks") c.clocks c.has_clocks)
      ∙ HasProperties-is_object c.clocks c.clocks_hold;
}

All-IsChange : (raws : List Json) → All IsCheckedChange raws → All IsChange raws
All-IsChange [] h = tt
All-IsChange (raw ∷ raws) (c, cs) = (IsCheckedChange-IsChange raw c, All-IsChange raws cs)

All-IsCheckedChange : (raws : List Json) → All IsChange raws → All IsCheckedChange raws
All-IsCheckedChange [] h = tt
All-IsCheckedChange (raw ∷ raws) (c, cs) =
    (IsChange-IsCheckedChange raw c, All-IsCheckedChange raws cs)

IsChecked-IsResponse : (raw : Json) (r : ResponseBody) → IsChecked raw r → IsResponse raw r
IsChecked-IsResponse raw r c =
    let (ms, shape) = shaped raw (codes "changes") (array c.items) c.has_changes (λ e. cc) in
    record {
      members = ms;
      shape = shape;
      items = c.items;
      has_changes = held raw ms shape (codes "changes") (array c.items) c.has_changes (λ e. cc);
      listed = subst (Listing c.items) (sym c.same_changes) (items_of-Listing c.items);
      sound = subst (All IsChange) (sym c.same_changes) (All-IsChange (items_of c.items) c.sound);
      has_checkpoint =
          held raw ms shape (codes "checkpoint") (number r.checkpoint) c.has_checkpoint (λ e. cc);
      accepted =
          subst (AcceptedIds ms) (sym (c.same_ids ∙ ap accepted_in shape))
            (accepted_at-AcceptedIds ms (member_at ms (codes "acceptedIds")) refl);
    }

IsResponse-IsChecked : (raw : Json) (r : ResponseBody) → IsResponse raw r → IsChecked raw r
IsResponse-IsChecked raw r s = record {
  an_object = ap is_object s.shape;
  items = s.items;
  has_changes = read raw s.members s.shape (codes "changes") (array s.items) s.has_changes;
  same_changes = Listing-items_of s.items r.changes s.listed;
  sound =
      subst (All IsCheckedChange) (Listing-items_of s.items r.changes s.listed)
        (All-IsCheckedChange r.changes s.sound);
  has_checkpoint =
      read raw s.members s.shape (codes "checkpoint") (number r.checkpoint) s.has_checkpoint;
  same_ids =
      AcceptedIds-accepted_at s.members r.accepted_ids s.accepted ∙ sym (ap accepted_in s.shape);
}

-- `parse` returns a body exactly for an object with an array `changes` of objects that each have a
-- text `id` and, under `fields` and `clocks`, values with properties (objects or arrays, not
-- `null`), and with a number `checkpoint`. The body holds those changes, that number and the texts
-- among the items of an array `acceptedIds`, in their order, or no ids where there is no such array.
-- It throws on anything else.
pub parse_iff : (raw : Json) (r : ResponseBody) → (parse raw ≡ some r) ↔ IsResponse raw r
parse_iff raw r =
    let iff = parse-IsChecked_iff raw r in
    (λ h. IsChecked-IsResponse raw r (iff.0 h), λ s. iff.1 (IsResponse-IsChecked raw r s))
