-- ===== src/Config/Lookup.antt =====
-- `config_find_profile` and `config_add_profile` of src/config.c together.
use molewire.Base.{
  ℕ, zero, suc, ◌+◌, ◌-◌, ◌≤◌, ◌<◌, ◌≡◌, ◌⊎◌, inl, inr, refl, ◌∙◌, arith, Bool, Bool-cases, true,
  false, [], ◌∷◌, take, length, ℤ, pos, negsuc, leb, ==_refl,
}
use native.Mathlib.Decide.{dec_lt}
use molewire.Config.Record.{CString, config_ssid_max, config_profile_max, WifiProfile, Config}
use molewire.Config.Profiles.{
  strncmp_eq, set_profile, active_profile, find_from, config_find_profile, del_at,
  config_del_profile, append_profile, victim, evict_and_append, config_add_profile,
}
use molewire.Config.ProfileLaws.{
  IsValid, config_del_profile-IsValid, config_del_profile-active, del_profile_count, victim-lt,
  shift_down-eq,
}

-- The entry answers to the name.
abbrev pub answers : (ℕ → WifiProfile) → CString → ℕ → Bool
answers ps ssid j = strncmp_eq config_ssid_max (ps j).ssid ssid

module _ (ps : ℕ → WifiProfile) (ssid : CString) where
  find_from-eq :
      (left i k : ℕ)
      → i ≤ k
      → k < i + left
      → answers ps ssid k ≡ true
      → ((j : ℕ) → i ≤ j → j < k → answers ps ssid j ≡ false)
      → find_from ps ssid left i ≡ pos k
  unfolding find_from
  find_from-eq zero i k a b hit first = absurd (omega arith)
  find_from-eq (suc left) i k a b hit first = elim (dec_lt i k) [
    | yes later ↦
        rw (first i (omega arith) later)
          (find_from-eq left (suc i) k later (omega arith) hit (λ j c d. first j (omega arith) d))
    | no here ↦ (let same : i ≡ k = omega arith in rw (same, hit))
  ]

  find_from-none :
      (left i j : ℕ)
      → find_from ps ssid left i ≡ negsuc 0
      → i ≤ j
      → j < i + left
      → answers ps ssid j ≡ false
  unfolding find_from
  find_from-none zero i j e a b = absurd (omega arith)
  find_from-none (suc left) i j e a b = ground (arith, find_from-none left (suc i) j)

  find_from-hit :
      (left i : ℕ) {k : ℕ}
      → find_from ps ssid left i ≡ pos k
      → (i ≤ k) × (k < i + left) × (answers ps ssid k ≡ true)
  unfolding find_from
  find_from-hit zero i e = cc
  find_from-hit (suc left) i {k} e = ground (arith, find_from-hit left (suc i) {k = k})

-- A name that fits the array answers to itself.
strncmp_eq-take :
    (n : ℕ) (ssid : CString) → length ssid ≤ n → strncmp_eq (suc n) (take n ssid) ssid ≡ true
unfolding strncmp_eq
strncmp_eq-take zero [] h = refl
strncmp_eq-take zero (x ∷ ssid) h = absurd (omega arith)
strncmp_eq-take (suc n) [] h = refl
strncmp_eq-take (suc n) (x ∷ ssid) h = ground (arith, strncmp_eq-take n ssid)

-- What is appended is found, if nothing else answers.
find-append :
    (c : Config) (ssid : CString)
    → length ssid < config_ssid_max
    → ((j : ℕ) → j < c.profile_count → answers c.profiles ssid j ≡ false)
    → config_find_profile (append_profile c ssid).0 ssid ≡ pos c.profile_count
unfolding config_find_profile append_profile
find-append c ssid short unknown =
    find_from-eq
      (set_profile c.profiles c.profile_count (record { ssid = take 32 ssid; password = [] })) ssid
      (c.profile_count + 1) 0 c.profile_count (omega arith) (omega arith)
      (rw (==_refl c.profile_count) (strncmp_eq-take 32 ssid (omega arith)))
      (λ j a b. ground (arith, unknown j))

del-unknown :
    (c : Config) (ssid : CString) (i j : ℕ)
    → ((k : ℕ) → k < c.profile_count → answers c.profiles ssid k ≡ false)
    → i < c.profile_count
    → j < c.profile_count - 1
    → answers (config_del_profile c (pos i)).profiles ssid j ≡ false
unfolding config_del_profile del_at
del-unknown c ssid i j unknown h low =
    ground
      (arith, shift_down-eq (c.profile_count - 1 - i) i c.profiles j, unknown j, unknown (suc j))

-- A call that added the network: its index is the one that a search finds, its entry is fresh, and
-- the active profile is the one of `c`.
pub record Added (c : Config) (ssid : CString) (made : Config × ℤ) : Type 0 where
  pub index : ℕ
  pub returned : made.1 ≡ pos index
  pub found : config_find_profile made.0 ssid ≡ made.1
  pub inside : index < made.0.profile_count
  pub entry_is : made.0.profiles index ≡ record { ssid = take 32 ssid; password = [] }
  pub same_active : active_profile made.0 ≡ active_profile c

append_profile-Added :
    (c : Config) (ssid : CString)
    → IsValid c
    → length ssid < config_ssid_max
    → ((j : ℕ) → j < c.profile_count → answers c.profiles ssid j ≡ false)
    → Added c ssid (append_profile c ssid)
unfolding append_profile active_profile
append_profile-Added c ssid v short unknown = record {
  index = c.profile_count;
  returned = refl;
  found = find-append c ssid short unknown;
  inside = omega arith;
  entry_is = ground arith;
  same_active = ground (arith, v.fits, v.active_in);
}

evict_and_append-Added :
    (c : Config) (ssid : CString) (i : ℤ)
    → IsValid c
    → victim c ≡ i
    → c.profile_count ≡ config_profile_max
    → length ssid < config_ssid_max
    → ((j : ℕ) → j < c.profile_count → answers c.profiles ssid j ≡ false)
    → Added c ssid (evict_and_append c ssid i)
unfolding evict_and_append
evict_and_append-Added c ssid (negsuc n) v e full short unknown =
    absurd (unfold victim in ground arith)
evict_and_append-Added c ssid (pos i) v e full short unknown =
    let out = victim-lt c e (omega arith) in
    let d = config_del_profile c (pos i) in
    let a = append_profile-Added d ssid (config_del_profile-IsValid c (pos i) v) short (λ j low.
      del-unknown c ssid i j unknown out.0 (omega (arith, del_profile_count c i out.0))) in
    record {
      index = a.index;
      returned = a.returned;
      found = a.found;
      inside = a.inside;
      entry_is = a.entry_is;
      same_active = a.same_active ∙ config_del_profile-active c i v out.0 out.1;
    }

-- In a well-formed list, adding a network whose name fits and that a search does not find succeeds,
-- and leaves the same profile active, also when a full list evicts an entry; a search then finds
-- the new entry at the index returned.
pub config_add_profile-Added :
    (c : Config) (ssid : CString)
    → IsValid c
    → length ssid < config_ssid_max
    → config_find_profile c ssid ≡ negsuc 0
    → Added c ssid (config_add_profile c ssid)
unfolding config_add_profile config_find_profile
config_add_profile-Added c ssid v short none_found =
    let unknown = λ (j : ℕ) (low : j < c.profile_count).
      find_from-none c.profiles ssid c.profile_count 0 j none_found (omega arith) (omega arith) in
    elim (Bool-cases (leb config_profile_max c.profile_count)) [
      | inl full ↦
          rw full
            (evict_and_append-Added c ssid (victim c) v refl (ground (arith, v.fits)) short unknown)
      | inr room ↦ rw room (append_profile-Added c ssid v short unknown)
    ]

find_from-cases :
    (ps : ℕ → WifiProfile) (ssid : CString) (left i : ℕ)
    → (find_from ps ssid left i ≡ negsuc 0) ⊎ ((k : ℕ) × (find_from ps ssid left i ≡ pos k))
unfolding find_from
find_from-cases ps ssid zero i = inl refl
find_from-cases ps ssid (suc left) i = elim (Bool-cases (answers ps ssid i)) [
  | inl hit ↦ inr (i, rw hit)
  | inr missed ↦ rw missed (find_from-cases ps ssid left (suc i))
]

-- A search ends at an entry of the list that answers to the name, or says that none does.
pub config_find_profile_lem :
    (c : Config) (ssid : CString)
    → ((k : ℕ) × (config_find_profile c ssid ≡ pos k)
        × (k < c.profile_count)
        × (strncmp_eq config_ssid_max (c.profiles k).ssid ssid ≡ true))
      ⊎ ((config_find_profile c ssid ≡ negsuc 0)
          × ((j : ℕ)
              → j < c.profile_count
              → strncmp_eq config_ssid_max (c.profiles j).ssid ssid ≡ false))
unfolding config_find_profile
config_find_profile_lem c ssid = elim (find_from-cases c.profiles ssid c.profile_count 0) [
  | inl missed ↦ inr (
    missed,
    λ j low. find_from-none c.profiles ssid c.profile_count 0 j missed (omega arith) (omega arith),
  )
  | inr (k, hit) ↦
      let (low, high, same) = find_from-hit c.profiles ssid c.profile_count 0 {k = k} hit in
      inl (k, hit, omega arith, same)
]
