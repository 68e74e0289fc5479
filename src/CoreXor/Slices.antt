-- ===== src/CoreXor/Slices.antt =====
-- The XOR of many sources, by any measure of a source: an element at an index, or the length. Taking
-- all sources but one out of it leaves that one's.
use mathlib.Core.Path.{subst}
use vada_db.Common.{
  ℕ, zero, suc, ◌<◌, ◌≡◌, ◌≢◌, refl, ap, sym, ◌∙◌, List, [], ◌∷◌, length, get_or, set, length-set,
  get_or-set_self, get_or-set_ne, arith, inl, inr,
}
use vada_db.Xor.{◌⊕◌, xor_comm, xor_assoc, xor_self, xor-zero, zero-xor, xor_right_comm}
use vada_db.KvTable.Survivors.{NotIn, Distinct, IsIn}

abbrev pub Sources : Type 0
Sources = List (List ℕ)

abbrev pub Others : Type 0
Others = List (ℕ × List ℕ)

-- Sources other than `m`, with their values.
abbrev pub AreOthers : ℕ → Sources → Others → Type 0
AreOthers m ss [] = Unit
AreOthers m ss ((j, values) ∷ rest) =
    (j < length ss) × (m ≢ j) × (values ≡ get_or ss j []) × AreOthers m ss rest

-- All the sources but `m`, each once.
pub record AllOthers (m : ℕ) (ss : Sources) (others : Others) : Type 0 where
  pub missing : m < length ss
  pub are : AreOthers m ss others
  pub distinct : Distinct others
  pub all : (k : ℕ) → k < length ss → m ≢ k → IsIn k others

abbrev without : Others → Sources → Sources
without [] ss = ss
without ((j, _) ∷ rest) ss = without rest (set ss j [])

AreOthers-set :
    (m j : ℕ) (v : List ℕ) (ss : Sources) (others : Others)
    → NotIn j others
    → AreOthers m ss others
    → AreOthers m (set ss j v) others
AreOthers-set m j v ss [] d a = tt
AreOthers-set m j v ss ((k, values) ∷ rest) d a = (
  omega (arith, length-set ss j v, a.0),
  a.1,
  a.2 ∙ sym (get_or-set_ne ss j k v [] d.0),
  AreOthers-set m j v ss rest d.1 a.3,
)

length-without : (others : Others) (ss : Sources) → length (without others ss) ≡ length ss
length-without [] ss = refl
length-without ((j, _) ∷ rest) ss = length-without rest (set ss j []) ∙ length-set ss j []

get_or-without_ne :
    (m : ℕ) (others : Others) (ss base : Sources)
    → AreOthers m base others
    → get_or (without others ss) m [] ≡ get_or ss m []
get_or-without_ne m [] ss base a = refl
get_or-without_ne m ((j, _) ∷ rest) ss base a =
    get_or-without_ne m rest (set ss j []) base a.3 ∙ get_or-set_ne ss j m [] [] (λ e. a.1 (sym e))

get_or-set_empty : (ss : Sources) (j k : ℕ) → get_or ss k [] ≡ [] → get_or (set ss j []) k [] ≡ []
get_or-set_empty [] j k e = refl
get_or-set_empty (s ∷ ss) zero zero e = refl
get_or-set_empty (s ∷ ss) zero (suc k) e = e
get_or-set_empty (s ∷ ss) (suc j) zero e = e
get_or-set_empty (s ∷ ss) (suc j) (suc k) e = get_or-set_empty ss j k e

get_or-without_empty :
    (k : ℕ) (others : Others) (ss : Sources)
    → get_or ss k [] ≡ []
    → get_or (without others ss) k [] ≡ []
get_or-without_empty k [] ss e = e
get_or-without_empty k ((j, _) ∷ rest) ss e =
    get_or-without_empty k rest (set ss j []) (get_or-set_empty ss j k e)

get_or-without_in :
    (k : ℕ) (others : Others) (ss : Sources)
    → k < length ss
    → IsIn k others
    → get_or (without others ss) k [] ≡ []
get_or-without_in k [] ss h i = absurd i
get_or-without_in k ((j, x) ∷ rest) ss h (inl e) =
    get_or-without_empty k rest (set ss j [])
      (subst (λ t. get_or (set ss t []) k [] ≡ []) (sym e) (get_or-set_self ss k [] [] h))
get_or-without_in k ((j, x) ∷ rest) ss h (inr i) =
    get_or-without_in k rest (set ss j []) (omega (arith, length-set ss j [])) i

module _ (f : List ℕ → ℕ) (f-nil : f [] ≡ 0) where
  abbrev pub xor_of_all : Sources → ℕ
  xor_of_all [] = 0
  xor_of_all (s ∷ ss) = f s ⊕ xor_of_all ss

  -- The running XOR of a loop over the other sources.
  abbrev pub xor_of_others : ℕ → Others → ℕ
  xor_of_others out [] = out
  xor_of_others out ((j, values) ∷ rest) = xor_of_others (out ⊕ f values) rest

  pub xor_of_all-set :
      (ss : Sources) (s : ℕ) (v : List ℕ)
      → s < length ss
      → xor_of_all (set ss s v) ≡ xor_of_all ss ⊕ f (get_or ss s []) ⊕ f v
  xor_of_all-set [] s v h = absurd (omega arith)
  xor_of_all-set (x ∷ ss) zero v h =
      rw (xor_right_comm (f x) (xor_of_all ss) (f x), xor_self (f x), zero-xor (xor_of_all ss))
        (xor_comm (f v) (xor_of_all ss))
  xor_of_all-set (x ∷ ss) (suc s) v h = rw (xor_of_all-set ss s v (omega arith)) (
      sym (
        ap (λ t. t ⊕ f v) (xor_assoc (f x) (xor_of_all ss) (f (get_or ss s [])))
        ∙ xor_assoc (f x) (xor_of_all ss ⊕ f (get_or ss s [])) (f v)))

  xor_of_others-without :
      (m : ℕ) (ss : Sources) (others : Others)
      → AreOthers m ss others
      → Distinct others
      → xor_of_others (xor_of_all ss) others ≡ xor_of_all (without others ss)
  xor_of_others-without m ss [] a d = refl
  xor_of_others-without m ss ((j, values) ∷ rest) a d =
      rw
        (
          a.2,
          sym (xor-zero (xor_of_all ss ⊕ f (get_or ss j []))),
          sym f-nil,
          sym (xor_of_all-set ss j [] a.0),
        )
        (xor_of_others-without m (set ss j []) rest (AreOthers-set m j [] ss rest d.0 a.3) d.1)

  xor_of_all-empty :
      (ss : Sources) → ((k : ℕ) → k < length ss → get_or ss k [] ≡ []) → xor_of_all ss ≡ 0
  xor_of_all-empty [] e = refl
  xor_of_all-empty (s ∷ ss) e =
      rw (e 0 (omega arith), f-nil, xor_of_all-empty ss (λ k p. e (suc k) (omega arith)))
        (zero-xor 0)

  xor_of_all-single :
      (ss : Sources) (m : ℕ)
      → m < length ss
      → ((k : ℕ) → k < length ss → m ≢ k → get_or ss k [] ≡ [])
      → xor_of_all ss ≡ f (get_or ss m [])
  xor_of_all-single [] m h e = absurd (omega arith)
  xor_of_all-single (s ∷ ss) zero h e =
      rw (xor_of_all-empty ss (λ k p. e (suc k) (omega arith) (omega arith))) (xor-zero (f s))
  xor_of_all-single (s ∷ ss) (suc m) h e =
      rw (e 0 (omega arith) (omega arith), f-nil, zero-xor (xor_of_all ss))
        (xor_of_all-single ss m (omega arith)
          (λ k p ne. e (suc k) (omega arith) (λ q. ne (omega arith))))

  -- What the loop over all the other sources leaves is the one source's.
  pub xor_of_others-single :
      (m : ℕ) (ss : Sources) (others : Others)
      → AllOthers m ss others
      → xor_of_others (xor_of_all ss) others ≡ f (get_or ss m [])
  xor_of_others-single m ss others a =
      xor_of_others-without m ss others a.are a.distinct
      ∙ xor_of_all-single (without others ss) m (omega (arith, length-without others ss, a.missing))
          (λ k p ne.
            get_or-without_in k others ss (omega (arith, length-without others ss))
              (a.all k (omega (arith, length-without others ss)) ne))
      ∙ ap f (get_or-without_ne m others ss ss a.are)
