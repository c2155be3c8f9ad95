-- ===== src/Drive/Write/Chain.antt =====
-- internal/drive/write.go: a chain of calls that succeeds, and what unlocking a keyring keeps.
use proton_drive_linux_fs.Base.{
  ℕ, ◌≡◌, refl, ap, sym, ◌∙◌, none, some, Option-cases, inl, inr, set_at, same_index, subst,
}
use proton_drive_linux_fs.Drive.Errors.{Result, ok, err}
use proton_drive_linux_fs.Drive.Nodes.{
  Node, Library, Store, Call, then_call, outside, in_world, inherit_attrs, keyring, unlocked,
}

abbrev pub Ends : {K W B : Type 0} → B → Store K W → Result B × Store K W → Type 0
Ends {K} {W} {B} b t r = ◌≡◌ {A = Result B × Store K W} r (ok b, t)

-- A chain whose result is no error goes on after its first call, `G` being what is to be shown.
module _ {K W A B : Type 0} (f : A → Call K W B) (b : B) (t : Store K W) where
  pub then_call-ok :
      {G : Type 0} (r : Result A × Store K W)
      → Ends b t (then_call f r)
      → ((a : A) (u : Store K W)
          → ◌≡◌ {A = Result A × Store K W} r (ok a, u)
          → Ends b t (f a u)
          → G)
      → G
  unfolding then_call
  then_call-ok (ok a, u) h go = go a u refl h
  then_call-ok (err e, u) h go = absurd (cc (ap (λ x. x.0) h))

  pub then_pure-ok : (a : A) (s : Store K W) → Ends b t (then_call f (ok a, s)) → Ends b t (f a s)
  unfolding then_call
  then_pure-ok a s h = h

  pub then_lift-ok :
      {G : Type 0} (r : Result A) (s : Store K W)
      → Ends b t (then_call f (r, s))
      → ((a : A) → r ≡ ok a → Ends b t (f a s) → G)
      → G
  unfolding then_call
  then_lift-ok (ok a) s h go = go a refl h
  then_lift-ok (err e) s h go = absurd (cc (ap (λ x. x.0) h))

  pub then_outside-ok :
      {G : Type 0} (call : W → Result A × W) (s : Store K W)
      → Ends b t (then_call f (outside call s))
      → ((a : A) (w : W)
          → ◌≡◌ {A = Result A × W} (call s.world) (ok a, w)
          → Ends b t (f a (record s { world = w }))
          → G)
      → G
  unfolding then_call outside in_world
  then_outside-ok {G = G} call s h go = in_world-ok (call s.world) refl h
    where
      in_world-ok :
          (r : Result A × W) → call s.world ≡ r → Ends b t (then_call f (in_world s r)) → G
      in_world-ok (ok a, w) e k = go a w e k
      in_world-ok (err x, w) e k = absurd (cc (ap (λ y. y.0) k))

module _ {K W : Type 0} where
  -- What unlocking keeps of a store.
  pub record Unlocks (p : ℕ) (kr : K) (s u : Store K W) : Type 0 where
    pub link : (q : ℕ) → (u.nodes q).link ≡ (s.nodes q).link
    pub attrs : (q : ℕ) (n : Node K) → inherit_attrs (u.nodes q) n ≡ inherit_attrs (s.nodes q) n
    pub opened : (u.nodes p).kr ≡ some kr
    pub kept : (q : ℕ) (k : K) → (s.nodes q).kr ≡ some k → (u.nodes q).kr ≡ some k

  same-Unlocks : (p : ℕ) (kr : K) (s : Store K W) → (s.nodes p).kr ≡ some kr → Unlocks p kr s s
  same-Unlocks p kr s h = record {
    link = λ q. refl;
    attrs = λ q n. refl;
    opened = h;
    kept = λ q k e. e;
  }

  unlock : ℕ → K → Store K W → Store K W
  unlock p kr s = record s { nodes = set_at p (record (s.nodes p) { kr = some kr }) s.nodes }

  unlock-Unlocks :
      (p : ℕ) (kr : K) (s : Store K W) → (s.nodes p).kr ≡ none → Unlocks p kr s (unlock p kr s)
  unfolding unlock set_at inherit_attrs
  unlock-Unlocks p kr s locked = record {
    link = λ q. at (λ n. n.link ≡ (s.nodes q).link) q (λ e. ap (λ j. (s.nodes j).link) e) refl;
    attrs = λ q n.
        at (λ m. inherit_attrs m n ≡ inherit_attrs (s.nodes q) n) q
          (λ e. ap (λ j. inherit_attrs (s.nodes j) n) e) refl;
    opened = here;
    kept = λ q k e.
        at (λ n. n.kr ≡ some k) q
          (λ same. absurd (apart (sym locked ∙ ap (λ j. (s.nodes j).kr) same ∙ e))) e;
  }
    where
      apart : {k : K} → none ≡ some k → ⊥
      apart e = cc

      here : (set_at p (record (s.nodes p) { kr = some kr }) s.nodes p).kr ≡ some kr
      here = elim (same_index p p) [
        | inl (same, e) ↦ rw same refl
        | inr (away, e) ↦ absurd (e refl)
      ]

      at :
          (P : Node K → Type 0) (q : ℕ)
          → (p ≡ q → P (record (s.nodes p) { kr = some kr }))
          → P (s.nodes q)
          → P (set_at p (record (s.nodes p) { kr = some kr }) s.nodes q)
      at P q here other = elim (same_index p q) [
        | inl (same, e) ↦ rw same (here e)
        | inr (away, e) ↦ rw away other
      ]

module _ {K W : Type 0} (lib : Library K) where
  pub keyring-Unlocks :
      (p : ℕ) (s u : Store K W) (kr : K)
      → ◌≡◌ {A = Result K × Store K W} (keyring lib p s) (ok kr, u)
      → Unlocks p kr s u
  unfolding keyring unlocked unlock
  keyring-Unlocks p s u kr h = elim (Option-cases (s.nodes p).kr) [
    | inr (k, have) ↦ carried k s (rw (have, keyring) refl) (same-Unlocks p k s have)
    | inl locked ↦ opens locked (lib.get_key_ring (s.nodes p).link (s.nodes p).parent_kr) refl
  ]
    where
      ok_inj : {a b : K} → ok a ≡ ok b → a ≡ b
      ok_inj e = cc

      carried :
          (k : K) (v : Store K W)
          → ◌≡◌ {A = Result K × Store K W} (keyring lib p s) (ok k, v)
          → Unlocks p k s v
          → Unlocks p kr s u
      carried k v e w =
          let same = sym e ∙ h in
          subst (λ x. Unlocks p x s u) (ok_inj (ap (λ x. x.0) same))
            (subst (Unlocks p k s) (ap (λ x. x.1) same) w)

      opens :
          (s.nodes p).kr ≡ none
          → (r : Result K) → lib.get_key_ring (s.nodes p).link (s.nodes p).parent_kr ≡ r
          → Unlocks p kr s u
      opens locked (ok k) e =
          carried k (unlock p k s) (rw (locked, keyring, e) refl) (unlock-Unlocks p k s locked)
      opens locked (err x) e = absurd (failed (sym (rw (locked, keyring, e) refl) ∙ h))
        where
          failed : ◌≡◌ {A = Result K × Store K W} (err x, s) (ok kr, u) → ⊥
          failed d = cc (ap (λ y. y.0) d)
