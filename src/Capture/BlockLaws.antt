-- ===== src/Capture/BlockLaws.antt =====
-- Captured blocks are keyed by their address and the ID of the emulator state.
-- No two blocks have one key, and there are not more than allocated.
use dbrew.Prelude.{ℕ, ◌-◌, ◌≤◌, ◌<◌, ◌≡◌, refl, sym, ap, ◌∙◌, ◌⊎◌, inl, inr, Option, none, some}
use dbrew.Prelude.{[], ◌∷◌, ◌++◌, arith, ltb, ltb→lt, Bool-cases, le→leb, lt→leb_false}
use dbrew.Prelude.{Option-cases, length, get_elem?, length-append}
use dbrew.Config.Ranges.{cc_get, config_find_function}
use dbrew.Capture.Blocks.{find_capture_bb, new_bb, get_capture_bb}
use dbrew.Capture.Types.{em_rewriter, et_buffer_overflow, set_error, Cbb, RContext}
use dbrew.Capture.Keys.{has_key_lem, has_key_self, key_has_key, find_from_found, find_from-none}
use dbrew.Capture.Keys.{find_from-append, append_cases, get_elem-append_left}
use dbrew.Capture.Keys.{get_elem-append_self}

pub record IsKeyed (r : RContext) : Type 0 where
  pub bounded : length r.cap_bb ≤ r.cap_bb_capacity
  pub unique :
      (i j : ℕ) (a b : Cbb)
      → get_elem? r.cap_bb i ≡ some a
      → get_elem? r.cap_bb j ≡ some b
      → a.dec_addr ≡ b.dec_addr
      → a.es_id ≡ b.es_id
      → i ≡ j

no_key :
    (r : RContext) (f : ℕ) (id : Option ℕ) (i : ℕ) (a : Cbb)
    → find_capture_bb r f id ≡ none
    → get_elem? r.cap_bb i ≡ some a
    → a.dec_addr ≡ f
    → a.es_id ≡ id
    → ⊥
unfolding find_capture_bb
no_key r f id i a n e df di =
    let x = find_from-none r.cap_bb f id 0 i a n e in
    let y = key_has_key a in ground (arith, rw (df, di) at y)

unique_append :
    (r : RContext) (f : ℕ) (id fc : Option ℕ)
    → find_capture_bb r f id ≡ none
    → IsKeyed r
    → (i j : ℕ) (a b : Cbb) → get_elem? (r.cap_bb ++ new_bb f id fc ∷ []) i ≡ some a
    → get_elem? (r.cap_bb ++ new_bb f id fc ∷ []) j ≡ some b
    → a.dec_addr ≡ b.dec_addr
    → a.es_id ≡ b.es_id
    → i ≡ j
unfolding new_bb
unique_append r f id fc n h i j a b ea eb d e =
    elim (append_cases r.cap_bb (new_bb f id fc) i a ea) [
      | inl x ↦ elim (append_cases r.cap_bb (new_bb f id fc) j b eb) [
        | inl y ↦ h.unique i j a b x y d e
        | inr (y, z) ↦
            absurd (no_key r f id i a n x (d ∙ ap (λ c. c.dec_addr) z) (e ∙ ap (λ c. c.es_id) z))
      ]
      | inr (x, w) ↦ elim (append_cases r.cap_bb (new_bb f id fc) j b eb) [
        | inl y ↦
            absurd
              (no_key r f id j b n y (sym d ∙ ap (λ c. c.dec_addr) w) (sym e ∙ ap (λ c. c.es_id) w))
        | inr (y, z) ↦ x ∙ sym y
      ]
    ]

pub get_new :
    (r : RContext) (f : ℕ) (id : Option ℕ)
    → find_capture_bb r f id ≡ none
    → length r.cap_bb < r.cap_bb_capacity
    → get_capture_bb r f id ≡ (
      some (length r.cap_bb),
      record r {
        cap_bb = r.cap_bb ++ new_bb f id (config_find_function r.cc f) ∷ [];
        cc = some (cc_get r.cc);
      },
    )
unfolding get_capture_bb
get_new r f id n l = rw (get_capture_bb, n, lt→leb_false r.cap_bb_capacity (length r.cap_bb) l) refl

pub get_old :
    (r : RContext) (f : ℕ) (id : Option ℕ) (i : ℕ)
    → find_capture_bb r f id ≡ some i
    → get_capture_bb r f id ≡ (some i, r)
unfolding get_capture_bb
get_old r f id i n = rw (get_capture_bb, n) refl

get_capture_bb_full :
    (r : RContext) (f : ℕ) (id : Option ℕ)
    → find_capture_bb r f id ≡ none
    → r.cap_bb_capacity ≤ length r.cap_bb
    → get_capture_bb r f id
      ≡ (none, record r { e = some (record { em = em_rewriter; et = et_buffer_overflow }) })
unfolding get_capture_bb set_error
get_capture_bb_full r f id n l =
    rw (get_capture_bb, n, le→leb r.cap_bb_capacity (length r.cap_bb) l) refl

-- Whether the block is found, created or refused, `getCaptureBB` keeps the keys of the blocks
-- different and their number within the capacity.
pub get_capture_bb-IsKeyed :
    (r : RContext) (f : ℕ) (id : Option ℕ) → IsKeyed r → IsKeyed (get_capture_bb r f id).1
get_capture_bb-IsKeyed r f id h = elim (Option-cases (find_capture_bb r f id)) [
  | inr (i, e) ↦ rw (get_old r f id i e) h
  | inl n ↦ elim (Bool-cases (ltb (length r.cap_bb) r.cap_bb_capacity)) [
    | inr full ↦
        rw (get_capture_bb_full r f id n (ground arith))
          (record { bounded = h.bounded; unique = h.unique })
    | inl room ↦
        let bb = new_bb f id (config_find_function r.cc f) in
        rw (get_new r f id n (ltb→lt _ _ room)) (record {
          bounded = omega (arith, length-append r.cap_bb (bb ∷ []), ltb→lt _ _ room);
          unique = unique_append r f id (config_find_function r.cc f) n h;
        })
  ]
]

-- What a caller that got block `i` may rely on.
pub record IsBlockOf (r r' : RContext) (f : ℕ) (id : Option ℕ) (i : ℕ) : Type 0 where
  pub block : Cbb
  pub there : get_elem? r'.cap_bb i ≡ some block
  pub addr : block.dec_addr ≡ f
  pub state : block.es_id ≡ id
  pub again : get_capture_bb r' f id ≡ (some i, r')
  pub kept : (k : ℕ) (a : Cbb) → get_elem? r.cap_bb k ≡ some a → get_elem? r'.cap_bb k ≡ some a

-- There is a block with the key.
abbrev pub HasBlock : RContext → ℕ → Option ℕ → Type 0
HasBlock r f id =
    (k : ℕ) × (c : Cbb) × (get_elem? r.cap_bb k ≡ some c) × (c.dec_addr ≡ f) × (c.es_id ≡ id)

room_for_new :
    (r : RContext) (f : ℕ) (id : Option ℕ)
    → find_capture_bb r f id ≡ none
    → (length r.cap_bb < r.cap_bb_capacity) ⊎ HasBlock r f id
    → length r.cap_bb < r.cap_bb_capacity
room_for_new r f id n (inl l) = l
room_for_new r f id n (inr (k, c, e, a, s)) = absurd (no_key r f id k c n e a s)

-- If there is room for a block or there is one with the key, `getCaptureBB` returns a position: the
-- block there has the address and the state asked for, asking again gives the same position and
-- changes nothing, and all earlier blocks are as before.
pub get_capture_bb_lem :
    (r : RContext) (f : ℕ) (id : Option ℕ)
    → (length r.cap_bb < r.cap_bb_capacity) ⊎ HasBlock r f id
    → (i : ℕ) × (get_capture_bb r f id ≡ (some i, (get_capture_bb r f id).1))
      × IsBlockOf r (get_capture_bb r f id).1 f id i
unfolding find_capture_bb new_bb
get_capture_bb_lem r f id l = elim (Option-cases (find_capture_bb r f id)) [
  | inr (i, e) ↦
      let x = find_from_found r.cap_bb f id 0 i e in
      let z : i - 0 ≡ i = omega arith in
      let k = has_key_lem f id x.1.0 x.1.2 in
      let y : IsBlockOf r r f id i = record {
        block = x.1.0;
        there = rw z at x.1.1;
        addr = k.0;
        state = k.1;
        again = get_old r f id i e;
        kept = λ k a h. h;
      } in
      (i, rw (get_old r f id i e) refl, rw (get_old r f id i e) y)
  | inl n ↦
      let fc = config_find_function r.cc f in
      let new = get_new r f id n (room_for_new r f id n l) in
      let r' = record r { cap_bb = r.cap_bb ++ new_bb f id fc ∷ []; cc = some (cc_get r.cc) } in
      let y : IsBlockOf r r' f id (length r.cap_bb) = record {
        block = new_bb f id fc;
        there = get_elem-append_self r.cap_bb (new_bb f id fc);
        addr = refl;
        state = refl;
        again = get_old r' f id (length r.cap_bb) (
            find_from-append r.cap_bb f id 0 (new_bb f id fc) n (has_key_self f id fc)
            ∙ ap some (omega arith));
        kept = λ k a h. get_elem-append_left r.cap_bb (new_bb f id fc) k a h;
      } in
      (length r.cap_bb, rw new refl, rw new y)
]
