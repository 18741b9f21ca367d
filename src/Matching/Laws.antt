-- ===== src/Matching/Laws.antt =====
-- The laws of the longest-prefix scan.
use mini_sms.Prelude.{
  ℕ, ◌+◌, ◌≤◌, ◌<◌, ◌≡◌, refl, ◌⊎◌, inl, inr, Bool, true, false, ◌&&◌, Option, none, some, List, [],
  ◌∷◌, ◌++◌, append-nil, append_assoc, arith, leb, Bool-cases, All, All-append, All-map,
  if◌then◌else◌, sym, subst,
}
use mini_sms.Text.{Text, text_eq, byte_len, has_prefix}
use mini_sms.Matching.{star, Scan, or_else, start, scan_entry, scan, longest}

module _ {E : Type 0} (prefix_of : E → Text) (dst : Text) where
  -- the entry is not the catch-all, and its prefix is a prefix of the digits
  abbrev pub matches : E → Bool
  matches e = if text_eq (prefix_of e) star then false else has_prefix dst (prefix_of e)

  abbrev pub size : E → ℕ
  size e = byte_len (prefix_of e)

  abbrev pub is_star : E → Bool
  is_star e = text_eq (prefix_of e) star

  abbrev pub NoMatch : List E → Type 0
  NoMatch = All (λ x. matches x ≡ false)

  abbrev pub NoStar : List E → Type 0
  NoStar = All (λ x. is_star x ≡ false)

  -- `e` is the first of the longest matches of `es`
  pub record IsBest (es : List E) (e : E) : Type 0 where
    pub before : List E
    pub after : List E
    pub split : es ≡ before ++ e ∷ after
    pub matched : matches e ≡ true
    pub longer : All (λ x. matches x ≡ true → size x < size e) before
    pub longest_of : All (λ x. matches x ≡ true → size x ≤ size e) after

  -- `e` is the first catch-all of `es`
  pub record IsFirstStar (es : List E) (e : E) : Type 0 where
    pub before : List E
    pub after : List E
    pub split : es ≡ before ++ e ∷ after
    pub starred : is_star e ≡ true
    pub none_before : NoStar before

  -- What the loop's variables say of the entries read so far.
  abbrev BestOf : List E → ℕ → Option E → Type 0
  BestOf done floor none = NoMatch done × (floor ≡ 0)
  BestOf done floor (some e) = IsBest done e × (floor ≡ size e + 1)

  abbrev StarOf : List E → Option E → Type 0
  StarOf done none = NoStar done
  StarOf done (some e) = IsFirstStar done e

  IsBest-extend :
      {es : List E} {e : E} (x : E)
      → IsBest es e
      → (matches x ≡ true → size x ≤ size e)
      → IsBest (es ++ x ∷ []) e
  IsBest-extend {e = e} x b h = record {
    before = b.before;
    after = b.after ++ x ∷ [];
    split = rw b.split (append_assoc b.before (e ∷ b.after) (x ∷ []));
    matched = b.matched;
    longer = b.longer;
    longest_of = All-append _ b.after (x ∷ []) b.longest_of (h, tt);
  }

  longer_of_best :
      {es : List E} {e : E} (x : E)
      → IsBest es e
      → size e < size x
      → All (λ y. matches y ≡ true → size y < size x) es
  longer_of_best {e = e} x b h =
      subst (All (λ y. matches y ≡ true → size y < size x)) (sym b.split) (
        All-append _ b.before (e ∷ b.after)
          (All-map (λ y p m. omega (arith, p m)) b.before b.longer)
          ((λ _. h), All-map (λ y p m. omega (arith, p m)) b.after b.longest_of))

  IsBest-last :
      (es : List E) (x : E)
      → matches x ≡ true
      → All (λ y. matches y ≡ true → size y < size x) es
      → IsBest (es ++ x ∷ []) x
  IsBest-last es x m h = record {
    before = es;
    after = [];
    split = refl;
    matched = m;
    longer = h;
    longest_of = tt;
  }

  take_entry :
      (done : List E) (floor : ℕ) (b : Option E) (x : E)
      → BestOf done floor b
      → matches x ≡ true
      → leb floor (size x) ≡ true
      → IsBest (done ++ x ∷ []) x
  take_entry done floor none x (unmatched, _) m h =
      IsBest-last done x m (All-map (λ y p q. absurd (ground arith)) done unmatched)
  take_entry done floor (some e) x (best, fl) m h =
      IsBest-last done x m (longer_of_best x best (ground arith))

  skip_entry :
      (done : List E) (floor : ℕ) (b : Option E) (x : E)
      → BestOf done floor b
      → (matches x ≡ true → leb floor (size x) ≡ false)
      → BestOf (done ++ x ∷ []) floor b
  skip_entry done floor none x (unmatched, fl) h =
      (All-append _ done (x ∷ []) unmatched (ground arith, tt), fl)
  skip_entry done floor (some e) x (best, fl) h =
      (IsBest-extend x best (λ m. ground (arith, h m)), fl)

  BestOf-step :
      (done : List E) (x : E) (s : Scan E)
      → BestOf done s.floor s.best
      → BestOf
          (done ++ x ∷ [])
          (scan_entry prefix_of dst x s).floor
          (scan_entry prefix_of dst x s).best
  unfolding scan_entry
  BestOf-step done x s h = elim (Bool-cases (is_star x)) [
    | inl st ↦ rw st (skip_entry done s.floor s.best x h (ground arith))
    | inr st ↦ elim (Bool-cases (has_prefix dst (prefix_of x) && leb s.floor (size x))) [
      | inl t ↦ rw (st, t) (take_entry done s.floor s.best x h (ground arith) (ground arith), refl)
      | inr t ↦ rw (st, t) (skip_entry done s.floor s.best x h (ground arith))
    ]
  ]

  StarOf-step :
      (done : List E) (x : E) (s : Scan E)
      → StarOf done s.catch_all
      → StarOf (done ++ x ∷ []) (scan_entry prefix_of dst x s).catch_all
  unfolding scan_entry
  StarOf-step done x s h = elim (Bool-cases (is_star x)) [
    | inl st ↦ rw st (found s.catch_all h st)
    | inr st ↦ elim (Bool-cases (has_prefix dst (prefix_of x) && leb s.floor (size x))) [
      | inl t ↦ rw (st, t) (keep_star s.catch_all h st)
      | inr t ↦ rw (st, t) (keep_star s.catch_all h st)
    ]
  ]
    where
      found :
          (o : Option E)
          → StarOf done o
          → is_star x ≡ true
          → StarOf (done ++ x ∷ []) (or_else o (some x))
      found none h st = record {
        before = done;
        after = [];
        split = refl;
        starred = st;
        none_before = h;
      }
      found (some e) h st = record {
        before = h.before;
        after = h.after ++ x ∷ [];
        split = rw h.split (append_assoc h.before (e ∷ h.after) (x ∷ []));
        starred = h.starred;
        none_before = h.none_before;
      }

      keep_star : (o : Option E) → StarOf done o → is_star x ≡ false → StarOf (done ++ x ∷ []) o
      keep_star none h st = All-append _ done (x ∷ []) h (st, tt)
      keep_star (some e) h st = record {
        before = h.before;
        after = h.after ++ x ∷ [];
        split = rw h.split (append_assoc h.before (e ∷ h.after) (x ∷ []));
        starred = h.starred;
        none_before = h.none_before;
      }

  -- Both variables of the loop, after the entries that it has read.
  record ScanOf (done : List E) (s : Scan E) : Type 0 where
    best_of : BestOf done s.floor s.best
    star_of : StarOf done s.catch_all

  ScanOf-scan :
      (es done : List E) (s : Scan E)
      → ScanOf done s
      → ScanOf (done ++ es) (scan prefix_of dst es s)
  unfolding scan
  ScanOf-scan [] done s h = rw append-nil h
  ScanOf-scan (x ∷ es) done s h =
      subst (λ l. ScanOf l (scan prefix_of dst es (scan_entry prefix_of dst x s)))
        (append_assoc done (x ∷ []) es)
        (ScanOf-scan es (done ++ x ∷ []) (scan_entry prefix_of dst x s) (record {
          best_of = BestOf-step done x s h.best_of;
          star_of = StarOf-step done x s h.star_of;
        }))

  ScanOf-start : (es : List E) → ScanOf es (scan prefix_of dst es start)
  ScanOf-start es = ScanOf-scan es [] start (record { best_of = (tt, refl); star_of = tt })

  -- What a lookup's answer says of the entries.
  abbrev pub Answers : List E → Option E → Type 0
  Answers es none = NoMatch es × NoStar es
  Answers es (some e) = IsBest es e ⊎ (NoMatch es × IsFirstStar es e)

  pub longest-Answers : (es : List E) → Answers es (longest prefix_of dst es)
  unfolding longest
  longest-Answers es = answer _ _ _ (ScanOf-start es).best_of (ScanOf-start es).star_of
    where
      answer :
          (floor : ℕ) (b c : Option E) → BestOf es floor b → StarOf es c → Answers es (or_else b c)
      answer floor none none h k = (h.0, k)
      answer floor none (some e) h k = inr (h.0, k)
      answer floor (some e) c h k = inl h.0
