-- ===== src/Publisher/Recipients/Order.antt =====
-- The recipients of publisherd are in strictly ascending order, so no inbox is served twice.
use oxifed.Base.{
  ◌≡◌, ◌≢◌, ap, subst, inl, inr, true, not, keep, List, [], ◌∷◌, ◌==◌, arith, eq_iff, le_text,
  le_text_total, le_text_trans, le_text_antisym, All, Bool-cases,
}
use oxifed.Vocab.{Url, UrlLib, Activity}
use oxifed.Publisher.Recipients.{
  insert_sorted, sort, dedup_from, dedup, extract_recipients, is_public, addressed,
}

abbrev pub UrlLe : Url → Url → Type 0
UrlLe u v = le_text u.as_str v.as_str ≡ true

abbrev pub IsSorted : List Url → Type 0
IsSorted [] = Unit
IsSorted (u ∷ us) = All (UrlLe u) us × IsSorted us

-- Each URL is smaller than every later one.
abbrev pub IsAscending : List Url → Type 0
IsAscending [] = Unit
IsAscending (u ∷ us) = All (λ v. UrlLe u v × (u ≢ v)) us × IsAscending us

Le-All : (u v : Url) (us : List Url) → UrlLe u v → All (UrlLe v) us → All (UrlLe u) us
Le-All u v [] h k = tt
Le-All u v (w ∷ us) h (k, ks) = (le_text_trans u.as_str v.as_str w.as_str h k, Le-All u v us h ks)

insert_sorted-All :
    (u v : Url) (us : List Url) → UrlLe u v → All (UrlLe u) us → All (UrlLe u) (insert_sorted v us)
unfolding insert_sorted
insert_sorted-All u v [] h k = (h, tt)
insert_sorted-All u v (w ∷ us) h (k, ks) = ground (arith, insert_sorted-All u v us h ks)

insert_sorted-IsSorted : (u : Url) (us : List Url) → IsSorted us → IsSorted (insert_sorted u us)
unfolding insert_sorted
insert_sorted-IsSorted u [] h = (tt, tt)
insert_sorted-IsSorted u (v ∷ us) (k, ks) = ground (
  arith,
  le_text_total u.as_str v.as_str,
  Le-All u v us,
  insert_sorted-All v u us,
  insert_sorted-IsSorted u us ks,
)

sort-IsSorted : (us : List Url) → IsSorted (sort us)
unfolding sort
sort-IsSorted [] = tt
sort-IsSorted (u ∷ us) = insert_sorted-IsSorted u (sort us) (sort-IsSorted us)

url_eq : (u v : Url) → u.as_str ≡ v.as_str → u ≡ v
url_eq u v e = λ i. record { as_str = e i }

abbrev IsAbove : Url → Url → Type 0
IsAbove u v = UrlLe u v × (u ≢ v)

-- What is above `v` is above all that `v` is above.
IsAbove-All : (u v : Url) (us : List Url) → IsAbove u v → All (IsAbove v) us → All (IsAbove u) us
IsAbove-All u v [] h k = tt
IsAbove-All u v (w ∷ us) h (k, ks) = (
  (
    le_text_trans u.as_str v.as_str w.as_str h.0 k.0,
    λ e.
        k.1 (
          url_eq v w
            (le_text_antisym v.as_str w.as_str k.0 (subst (λ (x : Url). UrlLe x v) e h.0))),
  ),
  IsAbove-All u v us h ks,
)

-- After the first of a run, what is kept is above it.
dedup_from-IsAscending :
    (u : Url) (us : List Url)
    → All (UrlLe u) us
    → IsSorted us
    → All (IsAbove u) (dedup_from u us) × IsAscending (dedup_from u us)
unfolding dedup_from
dedup_from-IsAscending u [] h k = (tt, tt)
dedup_from-IsAscending u (v ∷ us) (h, hs) (k, ks) = elim (Bool-cases (u.as_str == v.as_str)) [
  | inl same ↦ rw same (dedup_from-IsAscending u us hs ks)
  | inr other ↦
      let (above, rest) = dedup_from-IsAscending v us k ks in
      let strict : IsAbove u v =
        (h, λ e. cc (other, (eq_iff _ _).1 (ap (λ (x : Url). x.as_str) e))) in
      rw other ((strict, IsAbove-All u v (dedup_from v us) strict above), (above, rest))
]

dedup-IsAscending : (us : List Url) → IsSorted us → IsAscending (dedup us)
unfolding dedup
dedup-IsAscending [] h = tt
dedup-IsAscending (u ∷ us) (h, k) = dedup_from-IsAscending u us h k

-- Whatever an activity addresses, its recipients come in strictly ascending order of their
-- serializations: none of them is listed twice, although the source removes only consecutive
-- duplicates.
pub extract_recipients-IsAscending :
    (lib : UrlLib) (a : Activity) → IsAscending (extract_recipients lib a)
unfolding extract_recipients
extract_recipients-IsAscending lib a =
    let kept = keep (λ (u : Url). not (is_public u)) (addressed lib a) in
    dedup-IsAscending (sort kept) (sort-IsSorted kept)
