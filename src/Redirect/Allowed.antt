-- ===== src/Redirect/Allowed.antt =====
-- Redirects stay within the whitelist.
use kratos.Base.{Any, &&-parts, ℕ, ◌++◌, ◌⊎◌, refl, sym, ap, nat_eq}
use kratos.Http.{codes, same_codes}
use kratos.Base.{
  ◌≡◌, true, false, any, List, [], ◌∷◌, ◌==◌, string_eq, inl, inr, Bool-cases, Result-cases,
  Option-cases,
}
use kratos.Base.{ok, err-ne-ok, ok-injective}
use kratos.Redirect.{
  coalesce, tail, is_prefix, is_suffix, starts_with_star, has_prefix, is_white_listed_host, Url,
  Env, Options, RedirectOption, apply_options, is_allowed_by, if_allowed, completed, source_of,
  redirect_within, redirect_with, secure_redirect_to, is_empty,
}

false-ne-true : false ≡ true → ⊥
false-ne-true h = cc

same_codes-eq : (a b : List ℕ) → same_codes a b ≡ true → a ≡ b
same_codes-eq [] [] h = refl
same_codes-eq [] (c ∷ b) h = absurd (false-ne-true h)
same_codes-eq (c ∷ a) [] h = absurd (false-ne-true h)
same_codes-eq (c ∷ a) (d ∷ b) h =
    let parts = &&-parts (c == d) _ h in
    rw ((nat_eq.beq_iff c d).0 parts.0, same_codes-eq a b parts.1) refl

module _ (E : Env) where
  -- The options of a call.
  abbrev pub options_of : Url → List RedirectOption → Options
  options_of default_return_to opts =
      apply_options E opts
        (record { whitelist = []; default_return_to = default_return_to; source_url = "" })

  -- The host of an allowed URL: it is the host of the entry, up to upper and lower case, or ends in
  -- what follows the star of the entry's host.
  abbrev pub IsHostOf : Url → Url → Type 0
  IsHostOf url allowed =
      (E.equal_fold allowed.host url.host ≡ true)
      ⊎ ((before : List ℕ) × (codes allowed.host ≡ b'*' ∷ tail (codes allowed.host))
          × (codes (E.to_lower url.host) ≡ before ++ tail (codes (E.to_lower allowed.host))))

  -- The URL is within what an entry of the whitelist allows: the same scheme, a host of the entry,
  -- and a path that begins with the entry's, an empty path being the root.
  pub record IsWithin (url allowed : Url) : Type 0 where
    pub scheme : E.equal_fold allowed.scheme url.scheme ≡ true
    pub host : IsHostOf url allowed
    pub path :
        (rest : List ℕ) × (codes (coalesce url.path "/")
          ≡ codes (coalesce allowed.path "/") ++ rest)

  prefix_rest : (p s : List ℕ) → is_prefix p s ≡ true → (rest : List ℕ) × (s ≡ p ++ rest)
  prefix_rest [] s h = (s, refl)
  prefix_rest (a ∷ p) [] h = absurd (false-ne-true h)
  prefix_rest (a ∷ p) (c ∷ s) h =
      let parts = &&-parts (a == c) _ h in
      let (rest, same) = prefix_rest p s parts.1 in
      (rest, rw ((nat_eq.beq_iff a c).0 parts.0, same) refl)

  suffix_before : (p s : List ℕ) → is_suffix p s ≡ true → (before : List ℕ) × (s ≡ before ++ p)
  suffix_before p [] h = ([], sym (same_codes-eq p [] h))
  suffix_before p (c ∷ s) h = elim (Bool-cases (same_codes p (c ∷ s))) [
    | inl same ↦ ([], sym (same_codes-eq p (c ∷ s) same))
    | inr differs ↦
        let (before, same) = suffix_before p s (rw differs at h) in (c ∷ before, rw same refl)
  ]

  star_first : (s : List ℕ) → starts_with_star s ≡ true → s ≡ b'*' ∷ tail s
  star_first [] h = absurd (false-ne-true h)
  star_first (c ∷ s) h = ap (λ x. x ∷ s) ((nat_eq.beq_iff c b'*').0 h)

  host-IsHostOf :
      (url allowed : Url) → is_white_listed_host E url allowed ≡ true → IsHostOf url allowed
  unfolding is_white_listed_host
  host-IsHostOf url allowed h = elim (Bool-cases (starts_with_star (codes allowed.host))) [
    | inr plain ↦ inl (rw (plain, is_white_listed_host) at h)
    | inl star ↦
        let (before, same) =
          suffix_before (tail (codes (E.to_lower allowed.host))) (codes (E.to_lower url.host))
            (rw (star, is_white_listed_host) at h) in
        inr (before, star_first (codes allowed.host) star, same)
  ]

  allowed-IsWithin : (url allowed : Url) → is_allowed_by E url allowed ≡ true → IsWithin url allowed
  unfolding is_allowed_by has_prefix
  allowed-IsWithin url allowed h =
      let outer = &&-parts _ _ h in
      let inner = &&-parts _ _ outer.0 in
      record {
        scheme = inner.0;
        host = host-IsHostOf url allowed inner.1;
        path = prefix_rest _ _ outer.1;
      }

  -- The URL is the default URL, or within what some entry of the whitelist allows.
  abbrev pub IsAllowed : Options → Url → Type 0
  IsAllowed o u = (u ≡ o.default_return_to) ⊎ Any (IsWithin u) o.whitelist

  allowed_stays :
      (u : Url) (whitelist : List Url)
      → any (λ allowed. is_allowed_by E u allowed) whitelist ≡ true
      → Any (IsWithin u) whitelist
  allowed_stays u [] h = absurd (false-ne-true h)
  allowed_stays u (a ∷ whitelist) h = elim (Bool-cases (is_allowed_by E u a)) [
    | inl yes' ↦ inl (allowed-IsWithin u a yes')
    | inr no' ↦ inr (allowed_stays u whitelist (rw no' at h))
  ]

  if_allowed_stays :
      (whitelist : List Url) (url : Url) {u : Url}
      → if_allowed E whitelist url ≡ ok u
      → Any (IsWithin u) whitelist
  if_allowed_stays whitelist url k =
      elim (Bool-cases (any (λ allowed. is_allowed_by E url allowed) whitelist)) [
        | inl found ↦ rw (← ok-injective (rw found at k)) (allowed_stays url whitelist found)
        | inr missing ↦ absurd (err-ne-ok (rw missing at k))
      ]

  redirect_within_stays :
      (o : Options) (source : Url) {u : Url} → redirect_within E o source ≡ ok u → IsAllowed o u
  unfolding redirect_within
  redirect_within_stays o source k = elim (Bool-cases (E.return_to source.raw_query == "")) [
    | inl missing ↦ inl (sym (ok-injective (rw (missing, redirect_within) at k)))
    | inr given ↦ elim (Option-cases (E.parse_request_uri (E.return_to source.raw_query))) [
      | inl garbled ↦ absurd (err-ne-ok (rw (given, redirect_within, garbled) at k))
      | inr (url, parsed) ↦ inr (
          if_allowed_stays o.whitelist (completed E o url)
            (rw (given, redirect_within, parsed) at k))
    ]
  ]

  redirect_with_stays : (o : Options) {u : Url} → redirect_with E o ≡ ok u → IsAllowed o u
  unfolding redirect_with
  redirect_with_stays o k = elim (Bool-cases (is_empty E o.whitelist)) [
    | inl empty ↦ inl (sym (ok-injective (rw (empty, redirect_with) at k)))
    | inr listed ↦ elim (Result-cases (source_of E o)) [
      | inr (e, bad) ↦ absurd (err-ne-ok (rw (listed, redirect_with, bad) at k))
      | inl (source, fine) ↦ redirect_within_stays o source (rw (listed, redirect_with, fine) at k)
    ]
  ]

  -- Whatever the request and the options, a URL that SecureRedirectTo returns is the default URL of
  -- the options, or some entry of their whitelist has its scheme, up to case, its host, and a
  -- prefix of its path. The host is that of the entry, up to case, or ends in what follows the
  -- star with which the host of the entry begins.
  pub secure_redirect_to_stays :
      (default_return_to : Url) (opts : List RedirectOption) {u : Url}
      → secure_redirect_to E default_return_to opts ≡ ok u
      → IsAllowed (options_of default_return_to opts) u
  unfolding secure_redirect_to
  secure_redirect_to_stays default_return_to opts k =
      redirect_with_stays (options_of default_return_to opts) k
