-- ===== src/Query/Grammar/Laws.antt =====
-- About crates/evalhub-query/src/grammar.rs: the wire form and the tagged form of a filter.
use evalhub.Base.{ℕ, ◌+◌, ◌≡◌, refl, sym, ◌↔◌, String, some, List, [], ◌∷◌}
use evalhub.Base.Lists
use evalhub.Base.Text.{◌+++◌}
use evalhub.Base.Decimal.{decimal}
use evalhub.Base.Lookup.{find-named}
use evalhub.Json.{Value, string, array, object, Items, nil, cons, Members, end, member, get}
use evalhub.Query.Grammar.{
  ScalarOp, all_ops, eq, op_str, op_from_str, MatchTerm, Filter, Filters, and, or, not, compare,
  exists, any, no_filters, add_filter, tag, lower, lower_items, lower_terms, lower_leaf, lower_term,
  reject_extra_keys,
}

-- How a filter is written in a request.
abbrev pub term_to_wire : MatchTerm → Value
term_to_wire t = object (member "op" (string (op_str t.op)) (member "value" t.value end))

abbrev pub terms_to_wire : List (String × MatchTerm) → Members
terms_to_wire [] = end
terms_to_wire ((key, t) ∷ terms) = member key (term_to_wire t) (terms_to_wire terms)

unfoldable mutual
  pub to_wire : Filter → Value
  to_wire (and children) = object (member "and" (array (filters_to_wire children)) end)
  to_wire (or children) = object (member "or" (array (filters_to_wire children)) end)
  to_wire (not child) = object (member "not" (to_wire child) end)
  to_wire (compare path op value) =
      object
        (member "op" (string (op_str op)) (member "path" (string path) (member "value" value end)))
  to_wire (exists path) = object (member "op" (string "exists") (member "path" (string path) end))
  to_wire (any path terms) = object (
      member "match" (object (terms_to_wire terms))
        (member "op" (string "any") (member "path" (string path) end)))

  pub filters_to_wire : Filters → Items
  filters_to_wire no_filters = nil
  filters_to_wire (add_filter f fs) = cons (to_wire f) (filters_to_wire fs)

-- The internally tagged form of the same filter: each node says its variant under `type`.
unfoldable mutual
  pub to_tagged : Filter → Value
  to_tagged (and children) = tag "And" "children" (array (filters_to_tagged children))
  to_tagged (or children) = tag "Or" "children" (array (filters_to_tagged children))
  to_tagged (not child) = tag "Not" "child" (to_tagged child)
  to_tagged (compare path op value) = object (
      member "op" (string (op_str op))
        (member "path" (string path) (member "type" (string "Compare") (member "value" value end))))
  to_tagged (exists path) =
      object (member "path" (string path) (member "type" (string "Exists") end))
  to_tagged (any path terms) = object (
      member "path" (string path)
        (member "terms" (object (terms_to_wire terms)) (member "type" (string "Any") end)))

  pub filters_to_tagged : Filters → Items
  filters_to_tagged no_filters = nil
  filters_to_tagged (add_filter f fs) = cons (to_tagged f) (filters_to_tagged fs)

lower_terms-wire :
    (terms : List (String × MatchTerm)) (p : String)
    → lower_terms (terms_to_wire terms) p ≡ (terms_to_wire terms, [])
unfolding lower_terms lower_term get reject_extra_keys Lists.contains
lower_terms-wire [] p = refl
lower_terms-wire ((key, t) ∷ terms) p = rw (lower_terms-wire terms p)

lower-compare :
    (path : String) (op : ScalarOp) (value : Value) (p : String)
    → lower (to_wire (compare path op value)) p ≡ (to_tagged (compare path op value), [])
unfolding lower to_wire to_tagged lower_leaf op_str reject_extra_keys Lists.contains get
lower-compare path eq value p = refl
lower-compare path _ value p = refl

mutual
  unfolding lower to_wire to_tagged lower_leaf reject_extra_keys Lists.contains get

  lower_wire : (f : Filter) (p : String) → lower (to_wire f) p ≡ (to_tagged f, [])
  lower_wire (and children) p = rw (lower_items_wire children (p +++ "/and") 0)
  lower_wire (or children) p = rw (lower_items_wire children (p +++ "/or") 0)
  lower_wire (not child) p = rw (lower_wire child (p +++ "/not"))
  lower_wire (compare path op value) p = lower-compare path op value p
  lower_wire (exists path) p = refl
  lower_wire (any path terms) p = rw (lower_terms-wire terms (p +++ "/match"))

  lower_items_wire :
      (fs : Filters) (p : String) (i : ℕ)
      → lower_items (filters_to_wire fs) p i ≡ (filters_to_tagged fs, [])
  lower_items_wire no_filters p i = refl
  lower_items_wire (add_filter f fs) p i =
      rw (lower_wire f (p +++ "/" +++ decimal i), lower_items_wire fs p (i + 1))

-- Whatever the filter and wherever it stands, its wire form lowers to its tagged form and no
-- problem is recorded.
pub lower-to_wire : (f : Filter) (p : String) → lower (to_wire f) p ≡ (to_tagged f, [])
lower-to_wire f p = lower_wire f p

op_from_str-op_str : (op : ScalarOp) → op_from_str (op_str op) ≡ some op
unfolding op_from_str op_str
op_from_str-op_str eq = refl
op_from_str-op_str _ = refl

-- An operator is read back from its spelling, and from no other spelling.
pub op_from_str-eq-some_iff :
    (s : String) (op : ScalarOp) → (op_from_str s ≡ some op) ↔ (s ≡ op_str op)
unfolding op_from_str
op_from_str-eq-some_iff s op =
    (λ h. sym (find-named op_str s all_ops op h), λ e. rw e (op_from_str-op_str op))
