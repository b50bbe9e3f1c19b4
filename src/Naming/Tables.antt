-- ===== src/Naming/Tables.antt =====
-- The names of the default services' databases, against each other and against those that the
-- cleanup drops.
use pishop_operator.Base.{
  String, ◌≡◌, ◌≢◌, refl, Bool, true, str_eq, not, ◌||◌, arith, Elem, every_pair, every_pair-Elem,
}
use text.Mathlib.TextEquality.{eq_iff}
use pishop_operator.Naming.{
  default_services, database_base, get_database_name, cleanup_database_name,
}
use pishop_operator.Naming.Isolation.{AllDigits, cleanup_database_name-eq, get_database_name-inj}

differs_from_base : String → String → Bool
differs_from_base s t = not (str_eq s (database_base t))

base_decides : String → String → Bool
base_decides s t = not (str_eq (database_base s) (database_base t)) || str_eq s t

differs_from_base_table : every_pair differs_from_base default_services ≡ true
unfolding every_pair differs_from_base database_base
differs_from_base_table = refl

base_decides_table : every_pair base_decides default_services ≡ true
unfolding every_pair base_decides database_base
base_decides_table = refl

differs_from_base→ne : (s t : String) → differs_from_base s t ≡ true → s ≢ database_base t
unfolding differs_from_base
differs_from_base→ne s t h e = ground (arith, eq_iff s (database_base t))

base_decides→eq :
    (s t : String) → base_decides s t ≡ true → database_base s ≡ database_base t → s ≡ t
unfolding base_decides
base_decides→eq s t h e = ground (arith, eq_iff (database_base s) (database_base t), eq_iff s t)

module _ (s t p q : String) (s_default : Elem s default_services)
    (t_default : Elem t default_services) (p_digits : AllDigits p) (q_digits : AllDigits q) where
  -- Of the default services, and of two pull request numbers that are all digits, no two share a
  -- database: equal names come from the same service and the same number.
  pub get_database_name-isolates : get_database_name s p ≡ get_database_name t q → (s ≡ t) × (p ≡ q)
  get_database_name-isolates e =
      let (bases, numbers) = get_database_name-inj s t p q p_digits q_digits e in
      let decided =
        every_pair-Elem base_decides default_services s t base_decides_table s_default t_default in
      (base_decides→eq s t decided bases, numbers)

  -- No name that the cleanup drops for a default service is the name of a database that was
  -- created for a default service, for whatever numbers, if they are all digits.
  pub cleanup_database_name-misses : cleanup_database_name s p ≢ get_database_name t q
  cleanup_database_name-misses e =
      let found = cleanup_database_name-eq s t p q p_digits q_digits e in
      let decided =
        every_pair-Elem differs_from_base default_services s t differs_from_base_table s_default
          t_default in
      differs_from_base→ne s t decided found.0
