-- ===== src/Config/Laws.antt =====
-- What `Load` promises of a configuration, and where the names of variables and flags lead.
use flowhand.Base.{
  ◌≡◌, refl, ap, ◌⊎◌, inl, inr, ℕ, ◌-◌, ◌%◌, ◌≤◌, ◌<◌, true, false, ◌&&◌, String, Option, List, [],
  ◌∷◌, ◌++◌, map, codes, nat_eq, leb, ltb, if◌then◌else◌, arith, Bool-cases, All, ◌≢◌,
}
use flowhand.Failure.{Result, ok, err, errorf, ◌>>=◌}
use flowhand.Config.{
  ℤ, pos, negsuc, int32, Key, to_lower, trim_prefix, dot_first, env_key, underscored, same_key,
  flag_targets, target_in, flag_key, defaults, Koanf, Config, out_of_range, layers, config_of,
  materialize, load,
}

-- A number of `low` to 2^31 - 1.
abbrev pub InRange : ℕ → ℤ → Type 0
InRange low (pos n) = (low ≤ n) × (n ≤ 2147483647)
InRange low (negsuc n) = ⊥

out_of_range-InRange : (low : ℕ) (v : ℤ) → out_of_range low v ≡ false → InRange low v
out_of_range-InRange low (pos n) h = ground arith
out_of_range-InRange low (negsuc n) h = cc h

-- The conversion to 32 bits loses nothing there.
int32-InRange : (low : ℕ) (v : ℤ) → InRange low v → int32 v ≡ v
int32-InRange low (pos n) (l, h) =
    let small : n % 4294967296 ≡ n = omega arith in
    let test : ltb n 2147483648 ≡ true = ground arith in rw small (rw test refl)
int32-InRange low (negsuc n) r = elim r [ ]

materialize-InRange :
    (K : Koanf) (k : K.Store) (cfg : Config)
    → materialize K k ≡ ok cfg
    → (InRange 1 cfg.db.max_conns × (cfg.db.max_conns ≡ K.int k (codes "db.max_conns")))
      × (InRange 0 cfg.db.min_conns × (cfg.db.min_conns ≡ K.int k (codes "db.min_conns")))
unfolding materialize
materialize-InRange K k cfg h =
    elim (Bool-cases (out_of_range 1 (K.int k (codes "db.max_conns")))) [
      | inl bad ↦ let no : err (errorf "db.max_conns out of range") ≡ ok cfg = rw bad at h in cc no
      | inr max ↦ elim (Bool-cases (out_of_range 0 (K.int k (codes "db.min_conns")))) [
        | inl bad ↦
            let no : err (errorf "db.min_conns out of range") ≡ ok cfg = rw bad at (rw max at h) in
            cc no
        | inr min ↦
            let yes : ok (config_of K k) ≡ ok cfg = rw min at (rw max at h) in
            let same : config_of K k ≡ cfg = cc yes in
            let r = out_of_range-InRange 1 (K.int k (codes "db.max_conns")) max in
            let r' = out_of_range-InRange 0 (K.int k (codes "db.min_conns")) min in
            let exact = int32-InRange 1 (K.int k (codes "db.max_conns")) r in
            let exact' = int32-InRange 0 (K.int k (codes "db.min_conns")) r' in
            rw (← same) ((rw exact r, exact), (rw exact' r', exact'))
      ]
    ]

-- A configuration that `Load` returns has a maximum of 1 to 2^31 - 1 connections and a minimum of 0 to
-- 2^31 - 1, which are the numbers of the loaded layers: the conversion to 32 bits cuts nothing off.
pub load-InRange :
    (K : Koanf) (path : String) (flags : Option K.Flags) (cfg : Config)
    → load K path flags ≡ ok cfg
    → (k : K.Store) × (layers K path flags ≡ ok k)
      × (InRange 1 cfg.db.max_conns × (cfg.db.max_conns ≡ K.int k (codes "db.max_conns")))
      × (InRange 0 cfg.db.min_conns × (cfg.db.min_conns ≡ K.int k (codes "db.min_conns")))
unfolding load
load-InRange K path flags cfg h = of_layers (layers K path flags) refl h
  where
    of_layers :
        (r : Result K.Store)
        → layers K path flags ≡ r
        → (r >>= materialize K) ≡ ok cfg
        → (k : K.Store) × (layers K path flags ≡ ok k)
          × (InRange 1 cfg.db.max_conns × (cfg.db.max_conns ≡ K.int k (codes "db.max_conns")))
          × (InRange 0 cfg.db.min_conns × (cfg.db.min_conns ≡ K.int k (codes "db.min_conns")))
    of_layers (err e) same h = cc h
    of_layers (ok k) same h = let (max, min) = materialize-InRange K k cfg h in (k, same, max, min)

-- ## Names of variables

abbrev pub to_upper : ℕ → ℕ
to_upper c = if leb 97 c && leb c 122 then c - 32 else c

-- No capital, and no underscore.
abbrev pub IsPlain : ℕ → Type 0
IsPlain c = (c < 65) ⊎ (90 < c)

lower_upper : (c : ℕ) → IsPlain c → to_lower (to_upper c) ≡ c
lower_upper c h = ground arith

map_lower_upper : (s : Key) → All IsPlain s → map to_lower (map to_upper s) ≡ s
map_lower_upper [] h = refl
map_lower_upper (c ∷ s) (h, hs) = rw (lower_upper c h) (rw (map_lower_upper s hs) refl)

-- A plain character that is no underscore.
abbrev pub InSection : ℕ → Type 0
InSection c = IsPlain c × (c ≢ 95)

All-IsPlain : (s : Key) → All InSection s → All IsPlain s
All-IsPlain [] h = tt
All-IsPlain (c ∷ s) ((h, _), hs) = (h, All-IsPlain s hs)

dot_first-append : (s rest : Key) → All InSection s → dot_first (s ++ 95 ∷ rest) ≡ s ++ 46 ∷ rest
unfolding dot_first
dot_first-append [] rest h = refl
dot_first-append (c ∷ s) rest ((_, other), hs) =
    let n : nat_eq c 95 ≡ false = ground arith in
    rw n (ap (λ l. c ∷ l) (dot_first-append s rest hs))

map-append : (f : ℕ → ℕ) (s t : Key) → map f (s ++ t) ≡ map f s ++ map f t
map-append f [] t = refl
map-append f (c ∷ s) t = ap (λ l. f c ∷ l) (map-append f s t)

-- The variable of a setting: FLOWHAND_SECTION_KEY, in capitals, sets section.key. The key may have
-- underscores, the section may not, and neither has capitals of its own.
pub env_key-append :
    (section key : Key)
    → All InSection section
    → All IsPlain key
    → env_key (codes "FLOWHAND_" ++ map to_upper section ++ 95 ∷ map to_upper key)
      ≡ section ++ 46 ∷ key
unfolding trim_prefix
env_key-append section key plain plain' =
    rw (map-append to_lower (map to_upper section) (95 ∷ map to_upper key)) (
      rw (map_lower_upper section (All-IsPlain section plain))
        (rw (map_lower_upper key plain') (dot_first-append section key plain)))

-- ## Names of flags

-- The key is one of those that have a default.
abbrev pub HasDefault : Key → List (Key × String) → Type 0
HasDefault key [] = ⊥
HasDefault key ((k, v) ∷ rest) = (key ≡ k) ⊎ HasDefault key rest

target_in-HasDefault :
    (table : List (Key × Key)) (name : Key)
    → All (λ e. HasDefault e.1 defaults) table
    → (target_in table name ≡ []) ⊎ HasDefault (target_in table name) defaults
target_in-HasDefault [] name h = inl refl
target_in-HasDefault ((flag, dst) ∷ table) name (h, hs) = elim (Bool-cases (same_key flag name)) [
  | inl hit ↦ rw hit (inr h)
  | inr miss ↦ rw miss (target_in-HasDefault table name hs)
]

targets-HasDefault : All (λ e. HasDefault e.1 defaults) flag_targets
targets-HasDefault = (
  inl refl,
  (
    inr (inl refl),
    (
      inr (inr (inl refl)),
      (
        inr (inr (inr (inl refl))),
        (
          inr (inr (inr (inr (inl refl)))),
          (
            inr (inr (inr (inr (inr (inl refl))))),
            (
              inr (inr (inr (inr (inr (inr (inl refl)))))),
              (
                inr (inr (inr (inr (inr (inr (inr (inl refl))))))),
                (
                  inr (inr (inr (inr (inr (inr (inr (inr (inl refl)))))))),
                  (
                    inr (inr (inr (inr (inr (inr (inr (inr (inr (inl refl))))))))),
                    (
                      inr (inr (inr (inr (inr (inr (inr (inr (inr (inr (inl refl)))))))))),
                      (
                        inr (inr (inr (inr (inr (inr (inr (inr (inr (inr (inr (inl refl))))))))))),
                        tt,
                      ),
                    ),
                  ),
                ),
              ),
            ),
          ),
        ),
      ),
    ),
  ),
)

-- A flag, with dashes or underscores in its name, is ignored or sets a key that has a default.
pub flag_key-HasDefault : (name : Key) → (flag_key name ≡ []) ⊎ HasDefault (flag_key name) defaults
unfolding flag_key
flag_key-HasDefault name = target_in-HasDefault flag_targets (underscored name) targets-HasDefault
