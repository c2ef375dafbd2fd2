-- ===== src/Provider/Ipam/Search.antt =====
-- What `Allocate` finds in a range that has an end.
use fusis.Prelude.{
  ℕ, zero, suc, ◌<◌, String, ◌≡◌, refl, ap, Bool, true, false, none, some, List, [], ◌∷◌, length,
  arith, if◌then◌else◌, Bool-cases, inl, inr, Memᴰ,
}
use fusis.Types.{ok}
use fusis.Types.Service.{Service}
use fusis.Ipvs.State.{FusisState, get_services}
use fusis.Provider.Ipam.{Ranges, has_host, ip_is_assigned, allocate}

-- The first address of the list that no service has; "" if there is none.
abbrev pub first_free : List String → List Service → String
first_free [] services = ""
first_free (e ∷ es) services =
    let rest = first_free es services in if has_host e services then rest else e

abbrev pub some_free : List String → List Service → Bool
some_free [] services = false
some_free (e ∷ es) services =
    let rest = some_free es services in if has_host e services then rest else true

full-first_free :
    (es : List String) (services : List Service)
    → some_free es services ≡ false
    → first_free es services ≡ ""
full-first_free [] services h = refl
full-first_free (e ∷ es) services h = ground (arith, full-first_free es services)

module _ (ranges : Ranges) where
  open ranges use {Cursor, Position, next, first, set, ip}

  -- From this cursor `next` returns the positions of these addresses and then none, and leaves the
  -- cursor `last` behind.
  pub data Walks : Cursor → List String → Cursor → Type 0 where
    done : {c last : Cursor} → next c ≡ (none, last) → Walks c [] last
    step :
        {c c' last : Cursor} {es : List String} (pos : Position)
        → next c ≡ (some pos, c')
        → Walks c' es last
        → Walks c (ip pos ∷ es) last

  -- Where `Allocate` leaves the cursor: back at the start if it found an address, else at the end.
  pub data Rests (last : Cursor) : Bool → Cursor → Type 0 where
    rewound : (c : Cursor) → Rests last true (set (first c) c)
    at_end : Rests last false last

  -- Over a range that has an end, with more fuel than the range has addresses left, `Allocate`
  -- returns the first address left that no service has, and rewinds the cursor; if every address
  -- left is taken it returns "" with no error, and leaves the cursor at the end.
  pub allocate-first_free :
      (fuel : ℕ) (s : FusisState) {c last : Cursor} {es : List String}
      → Walks c es last
      → length es < fuel
      → (c' : Cursor) × (allocate ranges fuel s c ≡ some (c', ok (first_free es (get_services s))))
        × Rests last (some_free es (get_services s)) c'
  unfolding allocate ip_is_assigned
  allocate-first_free zero s w h = absurd (omega arith)
  allocate-first_free (suc fuel) s (done {last = last} e) h = (last, rw e refl, at_end)
  allocate-first_free (suc fuel) s (step {c' = c'} {last = last} {es = es} pos e w) h =
      elim (Bool-cases (has_host (ip pos) (get_services s))) [
        | inl taken ↦
            let (r, found, rests) = allocate-first_free fuel s w (omega arith) in
            (r, rw e (rw taken found), rw taken rests)
        | inr free ↦ (set (first c') c', rw e (rw free refl), rw free (rewound c'))
      ]

  free-first_free :
      (e : String) (es : List String) (services : List Service)
      → Memᴰ e es
      → has_host e services ≡ false
      → (some_free es services ≡ true)
        × (has_host (first_free es services) services ≡ false)
        × Memᴰ (first_free es services) es
  free-first_free e [] services m h = elim m [ ]
  free-first_free e (d ∷ es) services m h = elim (Bool-cases (has_host d services)) [
    | inl taken ↦ later taken m (λ t. free-first_free e es services t h)
    | inr free ↦ (rw free refl, rw free free, rw free (Memᴰ.head refl))
  ]
    where
      later :
          has_host d services ≡ true
          → Memᴰ e (d ∷ es)
          → (Memᴰ e es
              → (some_free es services ≡ true)
                × (has_host (first_free es services) services ≡ false)
                × Memᴰ (first_free es services) es)
          → (some_free (d ∷ es) services ≡ true)
            × (has_host (first_free (d ∷ es) services) services ≡ false)
            × Memᴰ (first_free (d ∷ es) services) (d ∷ es)
      later taken (Memᴰ.head q) ih =
          absurd (cc (ap (λ (t : String). has_host t services) q, taken, h))
      later taken (Memᴰ.tail t) ih =
          (rw taken (ih t).0, rw taken (ih t).1, rw taken (Memᴰ.tail (ih t).2))

  Rests-rewound :
      {last : Cursor} {b : Bool} {c : Cursor}
      → Rests last b c
      → b ≡ true
      → (d : Cursor) × (c ≡ set (first d) d)
  Rests-rewound (rewound c) e = (c, refl)
  Rests-rewound at_end e = cc

  -- If some address that is left in the range belongs to no service, `Allocate` returns one: an
  -- address of the range that no service has, with the cursor set back to the first position.
  pub allocate-IsFree :
      (fuel : ℕ) (s : FusisState) (e : String) {c last : Cursor} {es : List String}
      → Walks c es last
      → length es < fuel
      → Memᴰ e es
      → has_host e (get_services s) ≡ false
      → (d : Cursor) × (vip : String) × (allocate ranges fuel s c ≡ some (set (first d) d, ok vip))
        × (has_host vip (get_services s) ≡ false)
        × Memᴰ vip es
  allocate-IsFree fuel s e {es = es} w h m free =
      let (c', result, rests) = allocate-first_free fuel s w h in
      let (some', unassigned, inside) = free-first_free e es (get_services s) m free in
      let (d, rewound') = Rests-rewound rests some' in
      (d, first_free es (get_services s), rw (← rewound') result, unassigned, inside)

  -- A range that was found full stays full: where `next` stays at the end of the range, once
  -- `Allocate` has returned "" because every address left was taken, every later call returns ""
  -- too, whatever services were deleted in the meantime.
  pub allocate_after_full :
      (fuel later : ℕ) (s t : FusisState) {c last : Cursor} {es : List String}
      → Walks c es last
      → length es < fuel
      → 0 < later
      → next last ≡ (none, last)
      → some_free es (get_services s) ≡ false
      → (allocate ranges fuel s c ≡ some (last, ok ""))
        × (allocate ranges later t last ≡ some (last, ok ""))
  allocate_after_full fuel later s t {last = last} {es = es} w h pos stays full =
      let (c', result, rests) = allocate-first_free fuel s w h in
      let (c'', result', rests') = allocate-first_free later t (done stays) pos in
      (
        rw (← full-first_free es (get_services s) full) (rw (Rests-end rests full) at result),
        rw (Rests-end rests' refl) at result',
      )
    where
      Rests-end : {last' : Cursor} {b : Bool} {d : Cursor} → Rests last' b d → b ≡ false → d ≡ last'
      Rests-end (rewound d) e = cc
      Rests-end at_end e = refl
