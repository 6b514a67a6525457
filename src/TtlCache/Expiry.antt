-- ===== src/TtlCache/Expiry.antt =====
-- The cache of digital_fte/ttl_cache.py against what a caller sees of it: the value of a key at a
-- time. Dropping expired entries changes no value from then on.
use digital_fte_agent.Prelude.{
  ℕ, ◌+◌, ◌≡◌, refl, sym, ap, ◌∙◌, inl, inr, ite, Bool, true, false, not, Option, none, some, List,
  [], ◌∷◌, arith, if◌then◌else◌, Bool-cases, Option-cases, length,
}
use digital_fte_agent.Prelude.Int.{ℤ, ◌+ℤ◌, ◌≤ℤ◌, ltb_ℤ}
use digital_fte_agent.Prelude.Dict.{
  Dict, keys, mem?, IsDistinct, erase, lookup, contains-eq-mem?, insert-IsDistinct,
  erase-IsDistinct, lookup-insert, lookup-erase,
}
use digital_fte_agent.Prelude.Values.{int, ok}
use digital_fte_agent.TtlCache.{
  Entry, TtlCache, validate_now, expired_keys, live_keys, active_keys, put_at, contains_at, get,
  add, expiry, expires_at, erase_all, purge,
}

-- The value that an entry gives at a time.
abbrev pub value_at : {V : Type 0} → ℤ → Option (Entry V) → Option V
value_at now none = none
value_at now (some e) = if ltb_ℤ now e.expires_at then some e.value else none

abbrev pub is_some : {V : Type 0} → Option V → Bool
is_some none = false
is_some (some v) = true

-- The expiry time, if it is later than `now`.
abbrev pub ahead : ℤ → Option ℤ → Option ℤ
ahead now none = none
ahead now (some t) = if ltb_ℤ now t then some t else none

module _ {K V : Type 0} (dec : Discrete K) where
  abbrev pub IsValid : TtlCache K V → Type 0
  IsValid c = IsDistinct dec (keys c.entries)

  -- What the cache holds for a key at a time.
  abbrev pub view : TtlCache K V → K → ℤ → Option V
  view c k now = value_at now (lookup dec k c.entries)

  -- The two caches give the same from the time `now` on.
  abbrev pub AgreeFrom : ℤ → TtlCache K V → TtlCache K V → Type 0
  AgreeFrom now c c' = (k : K) (later : ℤ) → now ≤ℤ later → view c' k later ≡ view c k later

  -- `put` gives the key its value for `ttl` from now on, and touches no other key.
  view-put :
      (k j : K) (now later : ℤ) (v : V) (c : TtlCache K V)
      → view (put_at dec k now v c) j later
        ≡ ite (dec j k) (if ltb_ℤ later (now +ℤ c.ttl) then some v else none) (view c j later)
  unfolding put_at
  view-put k j now later v c =
      ground
        (arith, lookup-insert dec j k (record { value = v; expires_at = now +ℤ c.ttl }) c.entries)

  -- `contains` tells whether the key has a value now, and no value at a later time changes.
  contains_at-view :
      (k : K) (now : ℤ) (c : TtlCache K V)
      → IsValid c
      → let (r, c') = contains_at dec k now c in
        (r ≡ ok (is_some (view c k now))) × IsValid c' × AgreeFrom now c c'
  unfolding contains_at
  contains_at-view k now c h = elim (Option-cases (lookup dec k c.entries)) [
    | inl missing ↦ (ground arith, ground arith, λ j later le. ground arith)
    | inr (e, found) ↦ (
      ground arith,
      ground (arith, erase-IsDistinct dec k c.entries h),
      λ j later le. ground (arith, lookup-erase dec j k c.entries h),
    )
  ]

  put_at-IsValid :
      (k : K) (now : ℤ) (v : V) (c : TtlCache K V) → IsValid c → IsValid (put_at dec k now v c)
  unfolding put_at
  put_at-IsValid k now v c h = insert-IsDistinct dec k _ c.entries h

  contains_at-ttl : (k : K) (now : ℤ) (c : TtlCache K V) → (contains_at dec k now c).1.ttl ≡ c.ttl
  unfolding contains_at
  contains_at-ttl k now c = ground arith

  add-int :
      (k : K) (now : ℤ) (v : V) (c : TtlCache K V)
      → IsValid c
      → add dec k (int now) v c ≡ (
          if is_some (view c k now)
          then (ok false, (contains_at dec k now c).1)
          else (ok true, put_at dec k now v (contains_at dec k now c).1))
  unfolding add validate_now
  add-int k now v c h = ground (arith, contains_at-view k now c h)

  -- `add` inserts exactly where the key has no value now: then the key has the new value for `ttl`
  -- and every other key is as before; otherwise no value at a later time changes.
  add-view :
      (k : K) (now : ℤ) (v : V) (c : TtlCache K V)
      → IsValid c
      → let (r, c') = add dec k (int now) v c in
        (r ≡ ok (not (is_some (view c k now))))
        × IsValid c'
        × ((j : K) (later : ℤ)
            → now ≤ℤ later
            → view c' j later ≡ (
                if is_some (view c k now)
                then view c j later
                else ite
                    (dec j k)
                    (if ltb_ℤ later (now +ℤ c.ttl) then some v else none)
                    (view c j later)))
  unfolding add
  add-view k now v c h =
      let (found, kept, agree) = contains_at-view k now c h in
      rw (add-int k now v c h) (
        ground arith,
        ground (arith, put_at-IsValid k now v (contains_at dec k now c).1 kept),
        λ j later le. elim (Bool-cases (is_some (view c k now))) [
          | inl live ↦ rw (live) (agree j later le)
          | inr dead ↦ rw dead (
              ground (
                arith,
                agree j later le,
                contains_at-ttl k now c,
                view-put k j now later v (contains_at dec k now c).1,
              ))
        ],
      )

  -- The entries that have not expired.
  abbrev pub live_part : ℤ → Dict K (Entry V) → Dict K (Entry V)
  live_part now [] = []
  live_part now ((k, e) ∷ d) =
      if ltb_ℤ now e.expires_at then (k, e) ∷ live_part now d else live_part now d

  erase_all-cons :
      (ks : List K) (k : K) (e : Entry V) (d : Dict K (Entry V))
      → mem? dec k ks ≡ false
      → erase_all dec ks ((k, e) ∷ d) ≡ (k, e) ∷ erase_all dec ks d
  unfolding erase_all
  erase_all-cons [] k e d h = refl
  erase_all-cons (k' ∷ ks) k e d h = ground (arith, erase_all-cons ks k e (erase dec k' d))

  mem?-expired_keys :
      (now : ℤ) (k : K) (d : Dict K (Entry V))
      → mem? dec k (keys d) ≡ false
      → mem? dec k (expired_keys now d) ≡ false
  unfolding expired_keys
  mem?-expired_keys now k [] h = refl
  mem?-expired_keys now k (e ∷ d) h = ground (arith, mem?-expired_keys now k d)

  erase_all-expired_keys :
      (now : ℤ) (d : Dict K (Entry V))
      → IsDistinct dec (keys d)
      → erase_all dec (expired_keys now d) d ≡ live_part now d
  unfolding expired_keys erase_all
  erase_all-expired_keys now [] h = refl
  erase_all-expired_keys now ((k, e) ∷ d) h = ground (
    arith,
    erase_all-expired_keys now d h.1,
    erase_all-cons (expired_keys now d) k e d (mem?-expired_keys now k d h.0),
  )

  length-expired_keys :
      (now : ℤ) (d : Dict K (Entry V))
      → length (expired_keys now d) + length (live_part now d) ≡ length d
  unfolding expired_keys
  length-expired_keys now [] = refl
  length-expired_keys now (e ∷ d) = ground (arith, length-expired_keys now d)

  live_keys-eq-keys : (now : ℤ) (d : Dict K (Entry V)) → live_keys now d ≡ keys (live_part now d)
  unfolding live_keys
  live_keys-eq-keys now [] = refl
  live_keys-eq-keys now (e ∷ d) = ground (arith, live_keys-eq-keys now d)

  mem?-live_part :
      (now : ℤ) (k : K) (d : Dict K (Entry V))
      → mem? dec k (keys d) ≡ false
      → mem? dec k (keys (live_part now d)) ≡ false
  mem?-live_part now k [] h = refl
  mem?-live_part now k (e ∷ d) h = ground (arith, mem?-live_part now k d)

  live_part-IsDistinct :
      (now : ℤ) (d : Dict K (Entry V))
      → IsDistinct dec (keys d)
      → IsDistinct dec (keys (live_part now d))
  live_part-IsDistinct now [] h = tt
  live_part-IsDistinct now (e ∷ d) h =
      ground (arith, live_part-IsDistinct now d h.1, mem?-live_part now e.0 d h.0)

  abbrev keep_live : ℤ → Option (Entry V) → Option (Entry V)
  keep_live now none = none
  keep_live now (some e) = if ltb_ℤ now e.expires_at then some e else none

  lookup-live_part :
      (now : ℤ) (k : K) (d : Dict K (Entry V))
      → IsDistinct dec (keys d)
      → lookup dec k (live_part now d) ≡ keep_live now (lookup dec k d)
  lookup-live_part now k [] h = refl
  lookup-live_part now k ((j, e) ∷ d) h = ground (
    arith,
    lookup-live_part now k d h.1,
    contains-eq-mem? dec k (live_part now d),
    mem?-live_part now j d h.0,
  )

  keep_live-AgreeFrom :
      (o : Option (Entry V)) (now later : ℤ)
      → now ≤ℤ later
      → value_at later (keep_live now o) ≡ value_at later o
  keep_live-AgreeFrom none now later le = refl
  keep_live-AgreeFrom (some e) now later le = ground arith

  purge-int :
      (now : ℤ) (c : TtlCache K V)
      → IsValid c
      → purge dec (int now) c
        ≡ (ok (length (expired_keys now c.entries)), record c { entries = live_part now c.entries })
  unfolding purge validate_now
  purge-int now c h = rw (erase_all-expired_keys now c.entries h)

  abbrev or_default : V → Option V → V
  or_default default none = default
  or_default default (some v) = v

  get-view :
      (k : K) (now : ℤ) (default : V) (c : TtlCache K V)
      → (get dec k (int now) default c).0 ≡ ok (or_default default (view c k now))
  unfolding get contains_at validate_now
  get-view k now default c = ground arith

  -- `get` with the same default gives the same from the time `now` on.
  abbrev pub GetsAgree : ℤ → TtlCache K V → TtlCache K V → Type 0
  GetsAgree now c c' =
      (k : K) (later : ℤ) (default : V)
      → now ≤ℤ later
      → (get dec k (int later) default c').0 ≡ (get dec k (int later) default c).0

  GetsAgree-AgreeFrom : (now : ℤ) (c c' : TtlCache K V) → AgreeFrom now c c' → GetsAgree now c c'
  GetsAgree-AgreeFrom now c c' h k later default le =
      get-view k later default c'
      ∙ ap (λ o. ok (or_default default o)) (h k later le)
      ∙ sym (get-view k later default c)

  expiry-keep_live :
      (now : ℤ) (o : Option (Entry V)) → expiry dec (keep_live now o) ≡ ahead now (expiry dec o)
  expiry-keep_live now none = refl
  expiry-keep_live now (some e) = ground arith

  -- A purge of a valid cache at a time returns how many entries it drops, by which the length falls, and
  -- leaves exactly the keys that `active_keys` lists at that time. `expires_at` tells the old time of a key
  -- if that is later than the purge, and none otherwise; and what `get` returns for any key from then on
  -- is what it would have returned without the purge.
  pub purge-view :
      (now : ℤ) (c : TtlCache K V)
      → IsValid c
      → let (r, c') = purge dec (int now) c in
        ((n : ℕ) × (r ≡ ok n) × (n + length c'.entries ≡ length c.entries))
        × ((active_keys (int now) c).0 ≡ ok (keys c'.entries))
        × IsValid c'
        × ((k : K) → expires_at dec k c' ≡ ahead now (expires_at dec k c))
        × AgreeFrom now c c'
        × GetsAgree now c c'
  unfolding active_keys validate_now expires_at
  purge-view now c h =
      let agree : AgreeFrom now c (record c { entries = live_part now c.entries }) = λ k later le.
        rw (lookup-live_part now k c.entries h)
          (keep_live-AgreeFrom (lookup dec k c.entries) now later le) in
      rw (purge-int now c h) (
        (length (expired_keys now c.entries), refl, length-expired_keys now c.entries),
        ap ok (live_keys-eq-keys now c.entries),
        live_part-IsDistinct now c.entries h,
        λ k.
            rw (lookup-live_part now k c.entries h) (expiry-keep_live now (lookup dec k c.entries)),
        agree,
        GetsAgree-AgreeFrom now c (record c { entries = live_part now c.entries }) agree,
      )
