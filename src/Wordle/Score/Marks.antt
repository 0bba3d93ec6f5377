-- ===== src/Wordle/Score/Marks.antt =====
-- The marks of a reply, against what each mark should say of its letter.
use uefi_game.Prelude.{
  ℕ, zero, suc, ◌+◌, ◌≤◌, ◌<◌, ◌≡◌, ◌≢◌, refl, sym, ap, ◌∙◌, ◌↔◌, ◌⊎◌, inl, inr, arith, ◌==◌,
  Bool-cases, ==→eq, ==→ne, List, some, ok, store_lem, length, get_elem?, set, length-set,
  get_elem?-set_self, get_elem?-set_ne, get_elem?-of_lt, Returns, for_loop_from_zero, dec_lt,
}
use uefi_game.Wordle.Score.{Reply, mark_misplaced, score_letter, blank_reply, score}

blank_at : (i : ℕ) → i < 5 → get_elem? blank_reply.marks i ≡ some b'_'
blank_at i h = grind arith

module _ (input word : List ℕ) where
  -- The guess is right at position `i`.
  abbrev pub IsHit : ℕ → Type 0
  IsHit i = get_elem? input i ≡ get_elem? word i

  -- The letter at position `i` of the guess stands somewhere in the word.
  abbrev pub Occurs : ℕ → Type 0
  Occurs i = (j : ℕ) × (j < 5) × (get_elem? input i ≡ get_elem? word j)

  abbrev pub Describes : ℕ → ℕ → Type 0
  Describes i m =
      (m ≡ b'+') × IsHit i
      ⊎ (m ≡ b'?') × (¬ IsHit i) × Occurs i
      ⊎ (m ≡ b'_') × (¬ IsHit i) × (¬ Occurs i)

  -- After the first `n` letters.
  pub record Scored (n : ℕ) (r : Reply) : Type 0 where
    pub size : length r.marks ≡ 6
    pub described : (i : ℕ) → i < n → (m : ℕ) × (get_elem? r.marks i ≡ some m) × Describes i m
    pub untouched : (i : ℕ) → n ≤ i → get_elem? r.marks i ≡ get_elem? blank_reply.marks i
    pub most : r.pluses ≤ n
    pub all_hit : (r.pluses ≡ n) ↔ ((i : ℕ) → i < n → IsHit i)

  -- The inner loop: `?` if a letter from `j` on is `c`, no change if none is.
  mark_misplaced_lem :
      (n j c idx : ℕ) (marks : List ℕ)
      → j + n ≡ 5
      → 5 ≤ length word
      → idx < length marks
      → ((mark_misplaced n j c idx word marks ≡ ok (set marks idx b'?'))
          × ((k : ℕ) × (k < 5) × (some c ≡ get_elem? word k)))
        ⊎ ((mark_misplaced n j c idx word marks ≡ ok marks)
            × ((k : ℕ) → j ≤ k → k < 5 → some c ≢ get_elem? word k))
  unfolding mark_misplaced
  mark_misplaced_lem zero j c idx marks e w h = inr (refl, λ k a b. absurd (omega arith))
  mark_misplaced_lem (suc n) j c idx marks e w h =
      let (v, at) = get_elem?-of_lt word j (omega arith) in
      elim (Bool-cases (c == v)) [
        | inl same ↦ inl (
          rw (at, same) (store_lem marks idx b'?' h),
          (j, (omega arith), ap some (==→eq c v same) ∙ sym at),
        )
        | inr differs ↦ elim (mark_misplaced_lem n (j + 1) c idx marks (omega arith) w h) [
          | inl (run, found) ↦ inl (rw (at, differs) run, found)
          | inr (run, missing) ↦ inr (rw (at, differs) run, λ k a b. ground (arith, missing k))
        ]
      ]

  -- Writing the right mark at position `i` takes the loop one letter further.
  module _ (i : ℕ) (r : Reply) (s : Scored i r) (low : i < 5) where
    in_reply : i < length r.marks
    in_reply = rw s.size (omega arith)

    Scored-step :
        (v p : ℕ)
        → Describes i v
        → p ≤ i + 1
        → ((p ≡ i + 1) ↔ ((k : ℕ) → k < i + 1 → IsHit k))
        → Scored (i + 1) (record { marks = set r.marks i v; pluses = p })
    Scored-step v p says most all_hit = record {
      size = length-set r.marks i v ∙ s.size;
      described = λ k h. elim (dec_lt k i) [
        | yes l ↦
            let (m, e, d) = s.described k l in
            (m, get_elem?-set_ne r.marks i k v (omega arith) ∙ e, d)
        | no l ↦
            let e : i ≡ k = omega arith in
            rw (← e) (v, get_elem?-set_self r.marks i v in_reply, says)
      ];
      untouched = λ k h. get_elem?-set_ne r.marks i k v (omega arith) ∙ s.untouched k (omega arith);
      most = most;
      all_hit = all_hit;
    }

    IsHit-next : IsHit i → (r.pluses + 1 ≡ i + 1) ↔ ((k : ℕ) → k < i + 1 → IsHit k)
    IsHit-next hit = (
      λ e k h. elim (dec_lt k i) [
        | yes l ↦ s.all_hit.0 (omega arith) k l
        | no l ↦ let e : i ≡ k = omega arith in rw (← e) hit
      ],
      λ f. omega (arith, s.all_hit.1 (λ k h. f k (omega arith))),
    )

    miss_next : ¬ IsHit i → (r.pluses ≡ i + 1) ↔ ((k : ℕ) → k < i + 1 → IsHit k)
    miss_next miss = (λ e. absurd (omega (arith, s.most)), λ f. absurd (miss (f i (omega arith))))

    -- `reply[idx]` still is `_` when the letter is looked up.
    Scored-blank :
        Describes i b'_' → ((r.pluses ≡ i + 1) ↔ ((k : ℕ) → k < i + 1 → IsHit k)) → Scored (i + 1) r
    Scored-blank says all_hit = record {
      size = s.size;
      described = λ k h. elim (dec_lt k i) [
        | yes l ↦ s.described k l
        | no l ↦
            let e : i ≡ k = omega arith in
            rw (← e) (b'_', s.untouched i (omega arith) ∙ blank_at i low, says)
      ];
      untouched = λ k h. s.untouched k (omega arith);
      most = omega (arith, s.most);
      all_hit = all_hit;
    }

  score_letter_lem :
      (i : ℕ) (r : Reply)
      → 5 ≤ length input
      → 5 ≤ length word
      → i < 5
      → Scored i r
      → Returns (Scored (i + 1)) (score_letter input word i r)
  unfolding score_letter
  score_letter_lem i r hi hw low s =
      let (a, at) = get_elem?-of_lt input i (omega arith) in
      let (b, bt) = get_elem?-of_lt word i (omega arith) in
      let room = in_reply i r s low in
      elim (Bool-cases (a == b)) [
        | inl same ↦
            let hit : IsHit i = at ∙ ap some (==→eq a b same) ∙ sym bt in
            record {
              out = record { marks = set r.marks i b'+'; pluses = r.pluses + 1 };
              returns = rw (at, bt, same, store_lem r.marks i b'+' room);
              holds =
                  Scored-step i r s low b'+' (r.pluses + 1) (inl (refl, hit))
                    (omega (arith, s.most)) (IsHit-next i r s low hit);
            }
        | inr differs ↦
            let miss : ¬ IsHit i = λ h. ground (arith, ==→ne a b differs) in
            elim (mark_misplaced_lem 5 0 a i r.marks refl hw room) [
              | inl (run, (k, below, e)) ↦ record {
                out = record { marks = set r.marks i b'?'; pluses = r.pluses };
                returns = rw (at, bt, differs, run);
                holds =
                    Scored-step i r s low b'?' r.pluses (inr (inl (refl, miss, (k, below, at ∙ e))))
                      (omega (arith, s.most)) (miss_next i r s low miss);
              }
              | inr (run, missing) ↦ record {
                out = r;
                returns = rw (at, bt, differs, run);
                holds =
                    Scored-blank i r s low
                      (inr (inr (refl, miss, λ o. missing o.0 (omega arith) o.1 (sym at ∙ o.2))))
                      (miss_next i r s low miss);
              }
            ]
      ]

  -- A guess and a word of at least five letters are scored without a fault. Each of the five marks
  -- is `+` where the guess has the letter of the word, `?` where it has another letter of the word,
  -- and `_` where its letter is not in the word; the sixth stays 0. The count of `+` is 5 exactly
  -- when the guess is the word.
  pub score_lem : 5 ≤ length input → 5 ≤ length word → Returns (Scored 5) (score input word)
  unfolding score
  score_lem hi hw =
      for_loop_from_zero Scored (score_letter input word) 5
        (λ i r low s. score_letter_lem i r hi hw low s) blank_reply
        (record {
          size = refl;
          described = λ i h. absurd (omega arith);
          untouched = λ i h. refl;
          most = omega arith;
          all_hit = (λ e i h. absurd (omega arith), λ f. refl);
        })
