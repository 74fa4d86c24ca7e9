-- ===== src/Server/Sns/Cache.antt =====
-- packages/server/src/middleware/verify-sns-signature.ts: where the certificates of the cache come
-- from, and how many there are.
use review_agent.Common.{
  ℕ, ◌+◌, ◌≤◌, ◌≡◌, refl, sym, ap, ◌∙◌, Bool, true, false, not, ◌&&◌, Option, none, some, [], ◌∷◌,
  Text, text_eq, text_eq_iff, Result, ok, err, All, All-filter, leb→le, length, length-filter-le,
  Bool-cases, inl, inr, arith, Option-cases, Result-cases, leb,
}
use mathlib.Core.Path.{subst}
use review_agent.Server.Sns.{
  SnsMessage, CertCacheEntry, CertCache, find_cert, without, set_cert, touched, get_cached_cert,
  is_cached, without_oldest, room, set_cached_cert, VerifySnsSignatureOpts, is_aws_url,
  verified_with, fetched, with_cached, verify_sns_message, cert_cache_max_entries, SnsResponse,
  passed_on, judged, verify_sns_signature, RawSnsMessage, read_envelope, ◌>>=◌,
}

leb→gt : (a b : ℕ) → leb a b ≡ false → 1 + b ≤ a
leb→gt a b h = ground arith

module _ (P : Text × CertCacheEntry → Type 0) (url : Text) where
  find-All :
      (cache : CertCache) (e : CertCacheEntry)
      → All P cache
      → find_cert url cache ≡ some e
      → P (url, e)
  unfolding find_cert
  find-All [] e h p = cc
  find-All ((u, f) ∷ cache) e (hf, h) p = elim (Bool-cases (text_eq u url)) [
    | inl same ↦
        let q : f ≡ e = ground arith in
        subst (λ v. P (v, e)) ((text_eq_iff u url).0 same) (subst (λ g. P (u, g)) q hf)
    | inr other ↦ find-All cache e h (ground arith)
  ]

  set-All :
      (cache : CertCache) (e : CertCacheEntry)
      → All P cache
      → P (url, e)
      → All P (set_cert url e cache)
  unfolding set_cert
  set-All [] e h p = (p, tt)
  set-All ((u, f) ∷ cache) e (hf, h) p = elim (Bool-cases (text_eq u url)) [
    | inl same ↦ rw same (subst (λ v. P (v, e)) (sym ((text_eq_iff u url).0 same)) p, h)
    | inr other ↦ rw other (hf, set-All cache e h p)
  ]

  room-All : (cache : CertCache) → All P cache → All P (room url cache)
  room-All [] h = h
  room-All (p ∷ cache) h =
      elim (Bool-cases (
        leb cert_cache_max_entries (length (p ∷ cache))
        && not (is_cached (find_cert url (p ∷ cache))))) [
          | inl full ↦ rw full h.1
          | inr free ↦ rw free h
        ]

module _ (url : Text) where
  length-without :
      (cache : CertCache) (e : CertCacheEntry)
      → find_cert url cache ≡ some e
      → 1 + length (without url cache) ≤ length cache
  unfolding find_cert
  length-without [] e h = cc
  length-without ((u, f) ∷ cache) e h = elim (Bool-cases (text_eq u url)) [
    | inl same ↦ rw same (omega (arith, length-filter-le (λ p. not (text_eq p.0 url)) cache))
    | inr other ↦ rw other (omega (arith, length-without cache e (ground arith)))
  ]

  length-set :
      (cache : CertCache) (e : CertCacheEntry) → length (set_cert url e cache) ≤ 1 + length cache
  unfolding set_cert
  length-set [] e = omega arith
  length-set ((u, f) ∷ cache) e = ground (arith, length-set cache e)

  length-set_old :
      (cache : CertCache) (e f : CertCacheEntry)
      → find_cert url cache ≡ some f
      → length (set_cert url e cache) ≡ length cache
  unfolding set_cert find_cert
  length-set_old [] e f h = cc
  length-set_old ((u, g) ∷ cache) e f h = ground (arith, length-set_old cache e f)

  without_oldest-le :
      (cache : CertCache)
      → cert_cache_max_entries ≤ length cache
      → 1 + length (without_oldest cache) ≤ length cache
  without_oldest-le [] h = absurd (omega arith)
  without_oldest-le (p ∷ cache) h = omega arith

  length-set-room :
      (cache : CertCache) (e : CertCacheEntry)
      → length cache ≤ cert_cache_max_entries
      → length (set_cert url e (room url cache)) ≤ cert_cache_max_entries
  length-set-room cache e h = elim (Option-cases (find_cert url cache)) [
    | inl new ↦ elim (Bool-cases (leb cert_cache_max_entries (length cache))) [
      | inl full ↦
          rw (new, full)
            (omega (
              arith,
              length-set (without_oldest cache) e,
              without_oldest-le cache (leb→le _ _ full),
            ))
      | inr free ↦ rw (new, free) (omega (arith, length-set cache e, leb→gt _ _ free))
    ]
    | inr (f, old) ↦ elim (Bool-cases (leb cert_cache_max_entries (length cache))) [
      | inl full ↦ rw (old, full) (omega (arith, length-set_old cache e f old))
      | inr free ↦ rw (old, free) (omega (arith, length-set_old cache e f old))
    ]
  ]

module _ (opts : VerifySnsSignatureOpts) where
  -- a certificate that was fetched from an address of the service
  abbrev pub IsFetched : Text → Text → Type 0
  IsFetched url pem =
      (is_aws_url opts (opts.parse_url url) ≡ true) × ((at : ℕ) × (opts.fetch_cert at url ≡ ok pem))

  abbrev pub Holds : Text × CertCacheEntry → Type 0
  Holds p = IsFetched p.0 p.1.pem

  pub record IsSound (cache : CertCache) : Type 0 where
    pub origins : All Holds cache
    pub bounded : length cache ≤ cert_cache_max_entries

  -- the verifier took the canonical text of the message under such a certificate
  abbrev pub Accepted : SnsMessage → Type 0
  Accepted m =
      (pem : Text) × IsFetched m.signing_cert_url pem × (verified_with opts m pem ≡ ok true)

  abbrev Given : SnsMessage → Result Text Bool → Type 0
  Given m (ok true) = Accepted m
  Given m _ = Unit

  Given-verified :
      (m : SnsMessage) (pem : Text)
      → IsFetched m.signing_cert_url pem
      → Given m (verified_with opts m pem)
  Given-verified m pem f = elim (Result-cases (verified_with opts m pem)) [
    | inl (b, e) ↦ elim (Bool-cases b) [
      | inl t ↦ rw e (rw t (pem, f, e ∙ ap ok t))
      | inr t ↦ rw e (rw t tt)
    ]
    | inr (x, e) ↦ rw e tt
  ]

  module _ (url : Text) (now : ℕ) where
    -- a hit was fetched, and the cache is as sound as it was
    touched-IsSound :
        (cache : CertCache) (o : Option CertCacheEntry)
        → find_cert url cache ≡ o
        → IsSound cache
        → IsSound (touched url now cache o).1
    touched-IsSound cache none h s = s
    touched-IsSound cache (some hit) h s = elim (Bool-cases (leb hit.expires_at now)) [
      | inl old ↦ rw old (record {
        origins = All-filter Holds (λ p. not (text_eq p.0 url)) cache s.origins;
        bounded = omega (arith, length-without url cache hit h, s.bounded);
      })
      | inr fresh ↦ rw fresh (record {
        origins =
            set-All Holds url (without url cache) hit
              (All-filter Holds (λ p. not (text_eq p.0 url)) cache s.origins)
              (find-All Holds url cache hit s.origins h);
        bounded = omega (
          arith,
          length-without url cache hit h,
          length-set url (without url cache) hit,
          s.bounded,
        );
      })
    ]

    touched-IsFetched :
        (cache : CertCache) (o : Option CertCacheEntry) (pem : Text)
        → find_cert url cache ≡ o
        → IsSound cache
        → (touched url now cache o).0 ≡ some pem
        → IsFetched url pem
    touched-IsFetched cache none pem h s e = cc
    touched-IsFetched cache (some hit) pem h s e = elim (Bool-cases (leb hit.expires_at now)) [
      | inl old ↦ let q : (touched url now cache (some hit)).0 ≡ none = rw old in cc
      | inr fresh ↦
          let q : hit.pem ≡ pem = ground arith in
          subst (IsFetched url) q (find-All Holds url cache hit s.origins h)
    ]

    set_cached_cert-IsSound :
        (pem : Text) (cache : CertCache)
        → IsFetched url pem
        → IsSound cache
        → IsSound (set_cached_cert url pem now cache)
    unfolding set_cached_cert
    set_cached_cert-IsSound pem cache f s = record {
      origins = set-All Holds url (room url cache) _ (room-All Holds url cache s.origins) f;
      bounded = length-set-room url cache _ s.bounded;
    }

  module _ (m : SnsMessage) where
    fetched-IsSound :
        (now : ℕ) (cache : CertCache) (at : ℕ) (r : Result Text Text)
        → opts.fetch_cert at m.signing_cert_url ≡ r
        → is_aws_url opts (opts.parse_url m.signing_cert_url) ≡ true
        → IsSound cache
        → IsSound (fetched opts m now cache r).1 × Given m (fetched opts m now cache r).0
    fetched-IsSound now cache at (err e) h aws s = (s, tt)
    fetched-IsSound now cache at (ok pem) h aws s = (
      set_cached_cert-IsSound m.signing_cert_url now pem cache (aws, (at, h)) s,
      Given-verified m pem (aws, (at, h)),
    )

    verify_sns_message-IsSound :
        (now later : ℕ) (cache : CertCache)
        → IsSound cache
        → IsSound (verify_sns_message opts m now later cache).1
          × Given m (verify_sns_message opts m now later cache).0
    unfolding verify_sns_message get_cached_cert
    verify_sns_message-IsSound now later cache s =
        elim (Bool-cases (is_aws_url opts (opts.parse_url m.signing_cert_url))) [
          | inl aws ↦ rw aws (
              after (touched url now cache (find_cert url cache)) aws
                (touched-IsSound url now cache _ refl s)
                (λ pem e. touched-IsFetched url now cache _ pem refl s e))
          | inr foreign ↦ rw foreign (s, tt)
        ]
      where
        url : Text
        url = m.signing_cert_url

        after :
            (t : Option Text × CertCache)
            → is_aws_url opts (opts.parse_url m.signing_cert_url) ≡ true
            → IsSound t.1
            → ((pem : Text) → t.0 ≡ some pem → IsFetched m.signing_cert_url pem)
            → IsSound (with_cached opts m now later t).1
              × Given m (with_cached opts m now later t).0
        after (some pem, c) aws sound hit = (sound, Given-verified m pem (hit pem refl))
        after (none, c) aws sound hit = fetched-IsSound later c now _ refl aws sound

  module _ (parse : Text → Option RawSnsMessage) (raw : Text) where
    -- what is passed on was read of the request and is accepted
    abbrev pub IsJustified : SnsResponse → Type 0
    IsJustified (passed_on m) = ((parse raw >>= read_envelope) ≡ some m) × Accepted m
    IsJustified _ = Unit

    judged-IsJustified :
        (m : SnsMessage) (r : Result Text Bool × CertCache)
        → (parse raw >>= read_envelope) ≡ some m
        → IsSound r.1 × Given m r.0
        → IsSound (judged opts parse m r).1 × IsJustified (judged opts parse m r).0
    judged-IsJustified m (ok true, c) e (s, a) = (s, (e, a))
    judged-IsJustified m (ok false, c) e (s, a) = (s, tt)
    judged-IsJustified m (err x, c) e (s, a) = (s, tt)

    -- From a cache of at most 64 certificates, each fetched from an address of the service, the
    -- cache after a request is one again; and the request is passed on only as a message that was
    -- read of it, whose canonical text the verifier took under a certificate so fetched.
    pub verify_sns_signature-IsJustified :
        (now later : ℕ) (cache : CertCache)
        → IsSound cache
        → IsSound (verify_sns_signature opts parse raw now later cache).1
          × IsJustified (verify_sns_signature opts parse raw now later cache).0
    unfolding verify_sns_signature
    verify_sns_signature-IsJustified now later cache s =
        elim (Option-cases (parse raw >>= read_envelope)) [
          | inl bad ↦ rw bad (s, tt)
          | inr (m, e) ↦ rw e (
              judged-IsJustified m (verify_sns_message opts m now later cache) e
                (verify_sns_message-IsSound m now later cache s))
        ]
