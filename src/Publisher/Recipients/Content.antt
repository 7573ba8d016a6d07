-- ===== src/Publisher/Recipients/Content.antt =====
-- Which URLs are recipients in publisherd: those that `to`, `cc` and `audience` name.
use oxifed.Base.{
  String, ◌≡◌, refl, ap, Bool, true, false, not, ◌&&◌, ◌||◌, none, some, List, [], ◌∷◌, ◌++◌, ◌==◌,
  arith, eq_iff, any, keep, inl, inr, Option-cases, ◌↔◌,
}
use oxifed.Vocab.{Url, UrlLib, Value, elements, string, array, lookup, Activity}
use oxifed.Publisher.Recipients.{
  is_http, is_public, push_url, push_item, push_items, extract_urls_from_value, extract_field,
  addressed, insert_sorted, sort, dedup_from, dedup, extract_recipients,
}

pub same_url : Url → Url → Bool
same_url u v = v.as_str == u.as_str

unfoldable pub member : Url → List Url → Bool
unfolding same_url
member u us = any (same_url u) us

-- The strings of a field: a string, or those of an array.
abbrev pub strings_of_items : List Value → List String
strings_of_items [] = []
strings_of_items (string s ∷ vs) = s ∷ strings_of_items vs
strings_of_items (_ ∷ vs) = strings_of_items vs

abbrev pub strings_of : Value → List String
strings_of (string s) = s ∷ []
strings_of (array vs) = strings_of_items (elements vs)
strings_of _ = []

-- A string names `u` if it parses to it.
unfoldable pub names : UrlLib → Url → String → Bool
unfolding same_url
names lib u s = elim (lib.parse s) [ none ↦ false | some v ↦ same_url u v ]

unfoldable pub field_names : UrlLib → Url → Activity → String → Bool
unfolding names lookup
field_names lib u a key = elim (lookup key a.additional_properties) [
  | none ↦ false
  | some v ↦ any (names lib u) (strings_of v)
]

member-append : (u : Url) (us vs : List Url) → member u (us ++ vs) ≡ (member u us || member u vs)
unfolding member
member-append u [] vs = refl
member-append u (w ∷ us) vs = ground (arith, member-append u us vs)

same_url_iff : (u v : Url) → (same_url u v ≡ true) ↔ (v ≡ u)
unfolding same_url
same_url_iff u v = (
  λ h. let e = (eq_iff v.as_str u.as_str).0 h in λ i. record { as_str = e i },
  λ e. (eq_iff v.as_str u.as_str).1 (ap (λ (x : Url). x.as_str) e),
)

-- Two URLs that are the same have one scheme.
is_http-same : (lib : UrlLib) (u v : Url) → same_url u v ≡ true → is_http lib v ≡ is_http lib u
is_http-same lib u v h = ap (is_http lib) ((same_url_iff u v).0 h)

is_public-same : (u v : Url) → same_url u v ≡ true → is_public v ≡ is_public u
is_public-same u v h = ap is_public ((same_url_iff u v).0 h)

member-push_url :
    (lib : UrlLib) (u : Url) (s : String) (us : List Url)
    → member u (push_url lib s us) ≡ (member u us || is_http lib u && names lib u s)
unfolding push_url names member is_http
member-push_url lib u s us = elim (Option-cases (lib.parse s)) [
  | inl bad ↦ rw (bad, push_url, names) (ground arith)
  | inr (v, good) ↦ ground (arith, good, member-append u us (v ∷ []), is_http-same lib u v)
]

member-push_items :
    (lib : UrlLib) (u : Url) (vs : List Value) (us : List Url)
    → member u (push_items lib vs us)
      ≡ (member u us || is_http lib u && any (names lib u) (strings_of_items vs))
unfolding push_items push_item
member-push_items lib u [] us = ground arith
member-push_items lib u (string s ∷ vs) us =
    ground (arith, member-push_url lib u s us, member-push_items lib u vs (push_url lib s us))
member-push_items lib u (_ ∷ vs) us = member-push_items lib u vs us

member-extract :
    (lib : UrlLib) (u : Url) (v : Value) (us : List Url)
    → member u (extract_urls_from_value lib v us)
      ≡ (member u us || is_http lib u && any (names lib u) (strings_of v))
unfolding extract_urls_from_value
member-extract lib u (string s) us = ground (arith, member-push_url lib u s us)
member-extract lib u (array vs) us = member-push_items lib u (elements vs) us
member-extract lib u _ us = ground arith

member-extract_field :
    (lib : UrlLib) (u : Url) (a : Activity) (key : String) (us : List Url)
    → member u (extract_field lib a.additional_properties key us)
      ≡ (member u us || is_http lib u && field_names lib u a key)
unfolding extract_field field_names
member-extract_field lib u a key us = elim (Option-cases (lookup key a.additional_properties)) [
  | inl missing ↦ rw (missing, extract_field, field_names) (ground arith)
  | inr (v, found) ↦ rw (found, extract_field, field_names) (member-extract lib u v us)
]

member-keep :
    (u : Url) (us : List Url)
    → member u (keep (λ v. not (is_public v)) us) ≡ (not (is_public u) && member u us)
unfolding member
member-keep u [] = ground arith
member-keep u (v ∷ us) = ground (arith, member-keep u us, is_public-same u v)

member-insert_sorted :
    (u v : Url) (us : List Url) → member u (insert_sorted v us) ≡ (same_url u v || member u us)
unfolding member insert_sorted
member-insert_sorted u v [] = refl
member-insert_sorted u v (w ∷ us) = ground (arith, member-insert_sorted u v us)

member-sort : (u : Url) (us : List Url) → member u (sort us) ≡ member u us
unfolding sort member
member-sort u [] = refl
member-sort u (v ∷ us) = ground (arith, member-insert_sorted u v (sort us), member-sort u us)

same_url-same : (u v w : Url) → (v.as_str == w.as_str) ≡ true → same_url u v ≡ same_url u w
unfolding same_url
same_url-same u v w h = ap (λ (s : String). s == u.as_str) ((eq_iff v.as_str w.as_str).0 h)

member-dedup_from :
    (u v : Url) (us : List Url)
    → (same_url u v || member u (dedup_from v us)) ≡ (same_url u v || member u us)
unfolding dedup_from member
member-dedup_from u v [] = refl
member-dedup_from u v (w ∷ us) =
    ground (arith, same_url-same u v w, member-dedup_from u v us, member-dedup_from u w us)

member-dedup : (u : Url) (us : List Url) → member u (dedup us) ≡ member u us
unfolding dedup member
member-dedup u [] = refl
member-dedup u (v ∷ us) = ground (arith, member-dedup_from u v us)

-- The recipients of an activity are exactly the URLs that a string of its `to`, `cc` or
-- `audience` field parses to, with the scheme http or https, outside the ActivityStreams
-- namespace. So `bto` and `bcc` are not served, and no address is lost by sorting or by removing
-- duplicates.
pub member-extract_recipients :
    (lib : UrlLib) (u : Url) (a : Activity)
    → member u (extract_recipients lib a) ≡ (
        not (is_public u)
        && is_http lib u
        && (field_names lib u a "to" || field_names lib u a "cc" || field_names lib u a "audience"))
unfolding extract_recipients addressed
member-extract_recipients lib u a =
    simp (member-dedup, member-sort, member-keep, member-extract_field)
      (unfold member in ground arith)
