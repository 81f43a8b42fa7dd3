-- ===== src/Gas/Views.antt =====
-- `ValueView` and `ValueVisitor` of move_vm_types::views, which aptos-gas/src/misc.rs implements
-- visitors for. How a value of the virtual machine is visited is not in the repository: it is a
-- parameter.
use move_tutorial.Prelude.{ℕ, suc, Bool, List, ◌≡◌, if◌then◌else◌}

-- A visitor with its state `S`. A method is given the depth first; the methods for containers are
-- given the number of parts, and answer whether the parts are to be visited.
pub record ValueVisitor (S : Type 0) : Type 0 where
  pub visit_u8 : ℕ → ℕ → S → S
  pub visit_u64 : ℕ → ℕ → S → S
  pub visit_u128 : ℕ → ℕ → S → S
  pub visit_bool : ℕ → Bool → S → S
  pub visit_address : ℕ → ℕ → S → S
  pub visit_struct : ℕ → ℕ → S → S × Bool
  pub visit_vec : ℕ → ℕ → S → S × Bool
  pub visit_ref : ℕ → Bool → S → S × Bool
  pub visit_vec_u8 : ℕ → List ℕ → S → S
  pub visit_vec_u64 : ℕ → List ℕ → S → S
  pub visit_vec_u128 : ℕ → List ℕ → S → S
  pub visit_vec_bool : ℕ → List Bool → S → S
  pub visit_vec_address : ℕ → List ℕ → S → S

-- What a value shows to a visitor.
mutual
  pub data Shape : Type 0 where
    u8 u64 u128 address : ℕ → Shape
    bool : Bool → Shape
    vec_u8 vec_u64 vec_u128 vec_address : List ℕ → Shape
    vec_bool : List Bool → Shape
    struct_ vec : Shapes → Shape
    ref_ : Bool → Shape → Shape

  pub data Shapes : Type 0 where
    nil : Shapes
    cons : Shape → Shapes → Shapes

abbrev pub count : Shapes → ℕ
count nil = 0
count (cons x xs) = suc (count xs)

-- The parts of a container are visited, in order and one deeper, if the visitor asks for it.
abbrev mutual
  pub walk : {S : Type 0} → ValueVisitor S → Shape → ℕ → S → S
  walk vis (u8 n) depth s = vis.visit_u8 depth n s
  walk vis (u64 n) depth s = vis.visit_u64 depth n s
  walk vis (u128 n) depth s = vis.visit_u128 depth n s
  walk vis (address a) depth s = vis.visit_address depth a s
  walk vis (bool b) depth s = vis.visit_bool depth b s
  walk vis (vec_u8 ns) depth s = vis.visit_vec_u8 depth ns s
  walk vis (vec_u64 ns) depth s = vis.visit_vec_u64 depth ns s
  walk vis (vec_u128 ns) depth s = vis.visit_vec_u128 depth ns s
  walk vis (vec_address ns) depth s = vis.visit_vec_address depth ns s
  walk vis (vec_bool bs) depth s = vis.visit_vec_bool depth bs s
  walk vis (struct_ xs) depth s =
      let (s', deeper) = vis.visit_struct depth (count xs) s in
      if deeper then walk_all vis xs (suc depth) s' else s'
  walk vis (vec xs) depth s =
      let (s', deeper) = vis.visit_vec depth (count xs) s in
      if deeper then walk_all vis xs (suc depth) s' else s'
  walk vis (ref_ is_global x) depth s =
      let (s', deeper) = vis.visit_ref depth is_global s in
      if deeper then walk vis x (suc depth) s' else s'

  pub walk_all : {S : Type 0} → ValueVisitor S → Shapes → ℕ → S → S
  walk_all vis nil depth s = s
  walk_all vis (cons x xs) depth s = walk_all vis xs depth (walk vis x depth s)

-- The values of the virtual machine.
pub record ValueView (V : Type 0) : Type 1 where
  pub visit : {S : Type 0} → V → ValueVisitor S → S → S

-- A value is visited as the shape of it says, from depth 0.
pub record IsShaped {V : Type 0} (view : ValueView V) (shape : V → Shape) : Type 1 where
  pub visit_eq :
      {S : Type 0} (v : V) (vis : ValueVisitor S) (s : S)
      → view.visit v vis s ≡ walk vis (shape v) 0 s

-- Shapes as values.
instance abbrev pub shape_view : ValueView Shape
shape_view = record { visit = λ v vis s. walk vis v 0 s }
