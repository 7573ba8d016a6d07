-- ===== src/Publisher/Recipients.antt =====
-- `extract_urls_from_value` and `extract_recipients` of publisherd. Both return `Ok` on every
-- path, so they are functions to the list; the vector that the source fills is an argument.
pub mod Order
pub mod Content
use oxifed.Base.{
  String, Bool, true, false, not, ◌||◌, Option, none, some, List, [], ◌∷◌, ◌++◌, ◌==◌,
  if◌then◌else◌, starts_with, le_text, keep,
}
use oxifed.Vocab.{
  Url, UrlLib, Value, Elements, elements, string, array, Properties, lookup, Activity,
}

-- `url.scheme() == "http" || url.scheme() == "https"`
unfoldable pub is_http : UrlLib → Url → Bool
is_http lib u = lib.scheme u == "http" || lib.scheme u == "https"

-- The body of both branches: a string that parses to an HTTP or HTTPS URL is pushed.
unfoldable pub push_url : UrlLib → String → List Url → List Url
unfolding is_http
push_url lib s recipients = elim (lib.parse s) [
  | none ↦ recipients
  | some u ↦ if is_http lib u then recipients ++ u ∷ [] else recipients
]

unfoldable pub push_item : UrlLib → Value → List Url → List Url
unfolding push_url
push_item lib (string s) recipients = push_url lib s recipients
push_item lib _ recipients = recipients

unfoldable pub push_items : UrlLib → List Value → List Url → List Url
unfolding push_item
push_items lib [] recipients = recipients
push_items lib (v ∷ vs) recipients = push_items lib vs (push_item lib v recipients)

unfoldable pub extract_urls_from_value : UrlLib → Value → List Url → List Url
unfolding push_url push_items
extract_urls_from_value lib (string s) recipients = push_url lib s recipients
extract_urls_from_value lib (array vs) recipients = push_items lib (elements vs) recipients
extract_urls_from_value lib _ recipients = recipients

-- `if let Some(v) = activity.additional_properties.get(key) { extract(v, &mut recipients)? }`
unfoldable pub extract_field : UrlLib → Properties → String → List Url → List Url
unfolding extract_urls_from_value lookup
extract_field lib props key recipients = elim (lookup key props) [
  | none ↦ recipients
  | some v ↦ extract_urls_from_value lib v recipients
]

abbrev pub public_prefix : String
public_prefix = "https://www.w3.org/ns/activitystreams"

unfoldable pub is_public : Url → Bool
unfolding starts_with
is_public u = starts_with u.as_str public_prefix

-- `recipients.sort()`: `Url` is ordered by its serialization.
unfoldable pub insert_sorted : Url → List Url → List Url
unfolding le_text
insert_sorted u [] = u ∷ []
insert_sorted u (v ∷ vs) = if le_text u.as_str v.as_str then u ∷ v ∷ vs else v ∷ insert_sorted u vs

unfoldable pub sort : List Url → List Url
unfolding insert_sorted
sort [] = []
sort (u ∷ us) = insert_sorted u (sort us)

-- `recipients.dedup()` removes all but the first of consecutive equal elements.
unfoldable pub dedup_from : Url → List Url → List Url
dedup_from u [] = []
dedup_from u (v ∷ vs) =
    let same = dedup_from u vs in
    let next = v ∷ dedup_from v vs in if u.as_str == v.as_str then same else next

unfoldable pub dedup : List Url → List Url
unfolding dedup_from
dedup [] = []
dedup (u ∷ us) = u ∷ dedup_from u us

unfoldable pub addressed : UrlLib → Activity → List Url
unfolding extract_field
addressed lib a =
    let to = extract_field lib a.additional_properties "to" [] in
    let cc_too = extract_field lib a.additional_properties "cc" to in
    extract_field lib a.additional_properties "audience" cc_too

unfoldable pub extract_recipients : UrlLib → Activity → List Url
unfolding addressed is_public sort dedup
extract_recipients lib a = dedup (sort (keep (λ u. not (is_public u)) (addressed lib a)))
