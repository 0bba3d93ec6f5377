-- ===== src/BootManager/Placement/Sweep.antt =====
-- One pass over the map: it takes the escape with the number that was drawn.
use uefi_game.Prelude.{
  ℕ, ◌+◌, ◌*◌, ◌^◌, ◌≤◌, ◌<◌, ◌≡◌, refl, ◌∙◌, ◌⊎◌, inl, inr, arith, true, Bool-cases, ◌==◌, ==→ne,
  wrap_lem, List, some, Result, store_lem, length, get_elem?, set, length-set, get_elem?-of_lt,
  row_major_lt, Returns, Returns-map, for_loop, for_loop_from_zero,
}
use native.Mathlib.Numerals.{add-one}
use uefi_game.BootManager.Placement.{Textures, Placing, is_escape, take_cell, place_cell}
use uefi_game.BootManager.Placement.Count.{one, escapes_col, escapes_in}

module _ {E I : Type 0} (make : E → ℕ → Textures I → Result (Textures I)) (rand : ℕ → ℕ) (w h : ℕ)
    (entries : List E) (Good : Textures I → Type 0) (start : ℕ)
    -- The call of `MakeBootEntryTexture` adds one texture and keeps `Good`.
    (makes : (j : ℕ) (e : E) (c : ℕ) (t : Textures I)
      → get_elem? entries j ≡ some e
      → is_escape start c ≡ true
      → Good t
      → t.count < 2 ^ 60
      → Returns (λ (t' : Textures I). Good t' × (t'.count ≡ t.count + 1)) (make e c t))
    (p0 : Placing I) (i : ℕ) (entry : E) (r : ℕ) (good0 : Good p0.textures)
    (at_entry : get_elem? entries i ≡ some entry) (size : length p0.map ≡ h * w)
    (small : h * w < 2 ^ 64) (few : p0.textures.count < 2 ^ 60) where
  open p0 use {map as m0}

  -- The escape `c` in row `y` and column `x` has become the entry's.
  pub record Taken (p : Placing I) : Type 0 where
    pub x : ℕ
    pub y : ℕ
    pub c : ℕ
    pub in_row : x < w
    pub in_col : y < h
    pub escape : is_escape start c ≡ true
    pub was : get_elem? m0 (y * w + x) ≡ some c
    pub written : p.map ≡ set m0 (y * w + x) p0.textures.count
    pub good : Good p.textures
    pub count : p.textures.count ≡ p0.textures.count + 1
    pub past : r < p.escape_count

  record Waits (seen : ℕ) (p : Placing I) : Type 0 where
    map : p.map ≡ m0
    textures : p.textures ≡ p0.textures
    counted : p.escape_count ≡ seen
    low : seen ≤ r

  abbrev Swept : ℕ → Placing I → Type 0
  Swept seen p = Waits seen p ⊎ Taken p

  abbrev step : ℕ → ℕ → Placing I → Result (Placing I)
  step x y p = place_cell make rand w h entries start i r x y p

  Taken-stays : (x y : ℕ) (p : Placing I) → x < w → y < h → Taken p → Returns Taken (step x y p)
  unfolding place_cell
  Taken-stays x y p hx hy t =
      let low : y * w + x < h * w = row_major_lt h w (y, x) (hy, hx) in
      let room : y * w + x < length p.map =
        rw (t.written, length-set m0 (t.y * w + t.x) p0.textures.count, size) low in
      let (c, at) = get_elem?-of_lt p.map (y * w + x) room in
      let past = t.past in
      elim (Bool-cases (is_escape start c)) [
        | inl yes_escape ↦ record {
          out = record p { escape_count = p.escape_count + 1 };
          returns = rw (wrap_lem (y * w + x) (omega arith), at, yes_escape) (ground arith);
          holds = record {
            x = t.x;
            y = t.y;
            c = t.c;
            in_row = t.in_row;
            in_col = t.in_col;
            escape = t.escape;
            was = t.was;
            written = t.written;
            good = t.good;
            count = t.count;
            past = omega arith;
          };
        }
        | inr plain ↦ record {
          out = p;
          returns = rw (wrap_lem (y * w + x) (omega arith), at, plain);
          holds = t;
        }
      ]

  Waits-step :
      (x y seen : ℕ) (p : Placing I)
      → x < w
      → y < h
      → Waits seen p
      → Returns (Swept (seen + one start w (get_elem? m0 (y * w + x)))) (step x y p)
  unfolding place_cell
  Waits-step x y seen p hx hy v =
      let low : y * w + x < h * w = row_major_lt h w (y, x) (hy, hx) in
      let room : y * w + x < length p.map = rw (v.map, size) low in
      let (c, at) = get_elem?-of_lt m0 (y * w + x) (rw size low) in
      let at' : get_elem? p.map (y * w + x) ≡ some c = rw v.map at in
      elim (Bool-cases (is_escape start c)) [
        | inl escape ↦ elim (Bool-cases (p.escape_count == r)) [
          | inl chosen ↦
              let t =
                makes i entry c p.textures at_entry escape (rw v.textures good0)
                  (rw v.textures few) in
              record {
                out = record {
                  map = set p.map (y * w + x) p.textures.count;
                  textures = t.out;
                  escape_count = p.escape_count + 1;
                };
                returns =
                    rw (wrap_lem (y * w + x) (omega arith), at', escape, chosen)
                      (unfold take_cell in
                        rw (store_lem p.map _ p.textures.count room, at_entry, t.returns));
                holds = inr (record {
                  x = x;
                  y = y;
                  c = c;
                  in_row = hx;
                  in_col = hy;
                  escape = escape;
                  was = at;
                  written = rw (v.map, v.textures);
                  good = t.holds.0;
                  count = t.holds.1 ∙ rw v.textures;
                  past = ground arith;
                });
              }
          | inr other ↦ record {
            out = record p { escape_count = p.escape_count + 1 };
            returns = rw (wrap_lem (y * w + x) (omega arith), at', escape, other);
            holds = inl (record {
              map = v.map;
              textures = v.textures;
              counted = rw (at, escape) (omega (arith, v.counted));
              low = rw (at, escape) (omega (arith, v.counted, v.low, ==→ne _ _ other));
            });
          }
        ]
        | inr plain ↦ record {
          out = p;
          returns = rw (wrap_lem (y * w + x) (omega arith), at', plain);
          holds = inl (record {
            map = v.map;
            textures = v.textures;
            counted = rw (at, plain) (omega (arith, v.counted));
            low = rw (at, plain) (omega (arith, v.low));
          });
        }
      ]

  Swept-step :
      (x y seen : ℕ) (p : Placing I)
      → x < w
      → y < h
      → Swept seen p
      → Returns (Swept (seen + one start w (get_elem? m0 (y * w + x)))) (step x y p)
  Swept-step x y seen p hx hy (inl v) = Waits-step x y seen p hx hy v
  Swept-step x y seen p hx hy (inr t) = Returns-map (Taken-stays x y p hx hy t) (λ q u. inr u)

  column :
      (x : ℕ) (p : Placing I)
      → x < w
      → Swept (escapes_in start w m0 h x) p
      → Returns
          (Swept (escapes_in start w m0 h x + escapes_col start w m0 x h))
          (for_loop h 0 (step x) p)
  column x p hx s =
      let before = escapes_in start w m0 h x in
      for_loop_from_zero (λ y. Swept (before + escapes_col start w m0 x y)) (step x) h
        (λ y q hy u.
          let next : before + escapes_col start w m0 x (y + 1)
              ≡ before + escapes_col start w m0 x y + one start w (get_elem? m0 (y * w + x)) =
            rw add-one (omega arith) in
          rw next (Swept-step x y (before + escapes_col start w m0 x y) q hx hy u))
        p (let z : before + 0 ≡ before = omega arith in rw z s)

  -- If the number drawn is below the number of escapes, the pass takes one of them.
  pub sweep_lem :
      r < escapes_in start w m0 h w
      → Returns Taken (for_loop w 0 (λ x. for_loop h 0 (step x)) (record p0 { escape_count = 0 }))
  sweep_lem enough =
      Returns-map
        (for_loop_from_zero (λ x. Swept (escapes_in start w m0 h x)) (λ x. for_loop h 0 (step x)) w
          (λ x p hx s. rw add-one (column x p hx s)) (record p0 { escape_count = 0 })
          (inl (record { map = refl; textures = refl; counted = refl; low = omega arith })))
        (λ p. elim [ inl v ↦ absurd (omega (arith, v.low)) | inr t ↦ t ])
