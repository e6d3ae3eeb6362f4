-- ===== src/Diff/Counters.antt =====
-- The counters by which `diff` of src/diff.rs stops looking up a checksum that collides too often.
use fast_rsync.Base.{
  ℕ, ◌+◌, ◌≤◌, ◌<◌, ◌≡◌, sym, ◌∙◌, arith, Bytes, slice, true, Bool-cases, Option, none, some,
  Option-cases, inl, inr, ok, bind-ok, Write, ok_or_panic,
}
use fast_rsync.Base.Keys.{get, get_or_default, entry_or, get-entry_or, bytes_eq}
use fast_rsync.Crc.{Crc}
use fast_rsync.Diff.{
  Collisions, Scan, max_crc_collisions, allowed, match_digest, find_match, diff_loop,
}
use fast_rsync.Diff.Steps.{ScanStep, Reaches, matched, missed, Reaches-keeps, diff_loop-Reaches}
use fast_rsync.Md4.{md4}
use fast_rsync.Patch.Prefix.{ok-injective}
use fast_rsync.SecondLayerMap
use fast_rsync.SecondLayerMap.{SecondLayerMap}
use fast_rsync.Signature.Index.{IndexedSignature, crc_eq}

-- No counter is above the maximum.
abbrev pub IsBounded : Collisions → Type 0
IsBounded collisions =
    (crc : Crc) (count : ℕ) → get crc collisions ≡ some count → count ≤ max_crc_collisions

allowed-room :
    (crc : Crc) (collisions : Collisions)
    → allowed crc collisions ≡ true
    → get_or_default 0 (get crc collisions) < max_crc_collisions
unfolding allowed get_or_default
allowed-room crc collisions e = elim (Option-cases (get crc collisions)) [
  | inl absent ↦ rw absent (omega arith)
  | inr (count, found) ↦ let e' = rw (allowed, found) at e in rw found (ground arith)
]

counted-IsBounded :
    (crc : Crc) (collisions : Collisions)
    → allowed crc collisions ≡ true
    → IsBounded collisions
    → IsBounded (entry_or crc 0 (λ count. count + 1) collisions)
counted-IsBounded crc collisions may bounded other count e =
    let step = sym (get-entry_or crc other 0 (λ (n : ℕ). n + 1) collisions) ∙ e in
    let room = allowed-room crc collisions may in
    elim (Bool-cases (crc_eq.eq crc other)) [
      | inl t ↦
          let e' : some (get_or_default 0 (get crc collisions) + 1) ≡ some count = rw t at step in
          let same : get_or_default 0 (get crc collisions) + 1 ≡ count = cc in omega arith
      | inr f ↦ bounded other count (rw f at step)
    ]

module _ {E : Type 0} where
  match_digest-IsBounded :
      (sig : IndexedSignature) (crc : Crc) (collisions : Collisions)
      (blocks : SecondLayerMap Bytes ℕ) (window : Bytes) (r : Collisions × Option ℕ)
      → allowed crc collisions ≡ true
      → IsBounded collisions
      → match_digest {E = E} sig crc collisions blocks window ≡ ok r
      → IsBounded r.0
  unfolding match_digest
  match_digest-IsBounded sig crc collisions blocks window r may bounded e =
      let (hash, next, _) =
        bind-ok r _ (ok_or_panic (slice (md4 window) 0 sig.crypto_hash_size)) e in
      elim (Option-cases (SecondLayerMap.get hash blocks)) [
        | inl miss ↦
            let same = ok-injective _ _ (rw miss at next) in
            rw (← same) (counted-IsBounded crc collisions may bounded)
        | inr (idx, hit) ↦ let same = ok-injective _ _ (rw hit at next) in rw (← same) bounded
      ]

  find_match-IsBounded :
      (sig : IndexedSignature) (input : Bytes) (here : ℕ) (crc : Crc) (collisions : Collisions)
      (r : Collisions × Option ℕ)
      → IsBounded collisions
      → find_match {E = E} sig input here crc collisions ≡ ok r
      → IsBounded r.0
  unfolding find_match
  find_match-IsBounded sig input here crc collisions r bounded e =
      elim (Bool-cases (allowed crc collisions)) [
        | inr no_more ↦ let same = ok-injective _ _ (rw no_more at e) in rw (← same) bounded
        | inl may ↦ elim (Option-cases (get crc sig.blocks)) [
          | inl absent ↦ let same = ok-injective _ _ (rw (may, absent) at e) in rw (← same) bounded
          | inr (blocks, present) ↦
              let (window, next, _) =
                bind-ok r _ (ok_or_panic (slice input here (here + sig.block_size)))
                  (rw (may, present) at e) in
              match_digest-IsBounded sig crc collisions blocks window r may bounded next
        ]
      ]

module _ {E W : Type 0} ⦃writer : Write E W⦄ (sig : IndexedSignature) (input : Bytes) where
  step-IsBounded :
      (s s' : Scan W) → IsBounded s.collisions → ScanStep E sig input s s' → IsBounded s'.collisions
  step-IsBounded s _ bounded (matched _ crc idx collisions state out found copied) =
      find_match-IsBounded sig input s.here crc s.collisions (collisions, some idx) bounded found
  step-IsBounded s _ bounded (missed _ crc collisions found) =
      find_match-IsBounded sig input s.here crc s.collisions (collisions, none) bounded found

  -- In every state of the scan that is reached from one in which no counter of collisions is above the
  -- maximum, none is above the maximum.
  pub Reaches-IsBounded :
      (s s' : Scan W) → IsBounded s.collisions → Reaches E sig input s s' → IsBounded s'.collisions
  Reaches-IsBounded s s' bounded r =
      Reaches-keeps sig input (λ x. IsBounded x.collisions) step-IsBounded s s' bounded r

  -- Wherever the outer loop of `diff` ends, with whatever rounds it is given, no counter of
  -- collisions is above the maximum if none was at its start.
  pub diff_loop-IsBounded :
      (fuel : ℕ) (s s' : Scan W)
      → IsBounded s.collisions
      → diff_loop {E = E} fuel sig input s ≡ ok s'
      → IsBounded s'.collisions
  diff_loop-IsBounded fuel s s' bounded e =
      Reaches-IsBounded s s' bounded (diff_loop-Reaches sig input fuel s s' e)
