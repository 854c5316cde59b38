-- ===== src/Memory.antt =====
-- The store behind the pointers of DataStructures/SingleLinkedList: `SLL_Node` objects at
-- addresses, and the commands that read, link, allocate and free them.
pub mod Cells
pub mod Growth
use always_be_learning.Common.{ℕ, ◌≡◌, ◌≢◌, Option, none, some, ◌==◌, if◌then◌else◌}

abbrev pub Ptr : Type 0
Ptr = ℕ

abbrev pub null : Ptr
null = 0

-- `SLL_Node<T>`
pub record Node {ℓ} (A : Type ℓ) : Type ℓ where
  pub content : A
  pub next : Ptr

-- An address that holds no node is `none`.
abbrev pub Heap {ℓ} : Type ℓ → Type ℓ
Heap A = Ptr → Option (Node A)

-- How a run ends: with a value; with `std::bad_alloc`; at a failed `JAM_EXPECT`; at a read or
-- a write through a null or dangling pointer; or out of the rounds that a loop was given.
pub data Run {ℓ κ} (A : Type ℓ) (B : Type κ) : Type (ℓ ⊔ κ) where
  ok : B → Heap A → Run A B
  bad_alloc : Heap A → Run A B
  violated : Run A B
  fault : Run A B
  out_of_fuel : Run A B

abbrev pub Cmd {ℓ κ} : Type ℓ → Type κ → Type (ℓ ⊔ κ)
Cmd A B = Heap A → Run A B

-- What the code takes from `std::allocator`: an address at which no object lives, or `bad_alloc`.
pub record Allocator {ℓ} (A : Type ℓ) : Type ℓ where
  pub allocate : Heap A → Option Ptr
  pub ne_null : (h : Heap A) (p : Ptr) → allocate h ≡ some p → p ≢ null
  pub unused : (h : Heap A) (p : Ptr) → allocate h ≡ some p → h p ≡ none

module _ {ℓ} {A : Type ℓ} where
  abbrev pub node : A → Ptr → Node A
  node v q = record { content = v; next = q }

  unfoldable pub write : Heap A → Ptr → Option (Node A) → Heap A
  write h p c a = if a == p then c else h a

  abbrev pub pure {κ} : {B : Type κ} → B → Cmd A B
  pure b h = ok b h

  abbrev pub then_run {κ μ} : {B : Type κ} {C : Type μ} → Run A B → (B → Cmd A C) → Run A C
  then_run (ok b h) k = k b h
  then_run (bad_alloc h) k = bad_alloc h
  then_run violated k = violated
  then_run fault k = fault
  then_run out_of_fuel k = out_of_fuel

  infixl 5 ◌>>=◌ ◌>>◌
  abbrev pub ◌>>=◌ {κ μ} : {B : Type κ} {C : Type μ} → Cmd A B → (B → Cmd A C) → Cmd A C
  ◌>>=◌ m k h = then_run (m h) k

  abbrev pub ◌>>◌ {κ μ} : {B : Type κ} {C : Type μ} → Cmd A B → Cmd A C → Cmd A C
  ◌>>◌ m n = m >>= λ _. n

  -- `*p`
  unfoldable pub load : Ptr → Cmd A (Node A)
  load p h = if p == null then fault else elim (h p) [ none ↦ fault | some n ↦ ok n h ]

  store : Ptr → Option (Node A) → Cmd A (Unit {0})
  store p c h = ok tt (write h p c)

  -- `link_nodes(lhs, rhs)`, and any `lhs->next = rhs`
  unfoldable pub link_nodes : Ptr → Ptr → Cmd A (Unit {0})
  unfolding store
  link_nodes lhs rhs = do n ← load lhs; store lhs (some (record n { next = rhs }))

  -- `free(node)`: destroy and deallocate
  unfoldable pub free_node : Ptr → Cmd A (Unit {0})
  unfolding store
  free_node p = load p >> store p none

  -- `make_node(value)`
  unfoldable pub make_node : Allocator A → A → Cmd A Ptr
  make_node alloc v h = elim (alloc.allocate h) [
    | none ↦ bad_alloc h
    | some p ↦ ok p (write h p (some (node v null)))
  ]

  -- The run ends normally, in a value and a heap that satisfy `P`.
  abbrev pub Returns {κ μ} : {B : Type κ} → Run A B → (B → Heap A → Type μ) → Type (ℓ ⊔ κ ⊔ μ)
  Returns {B} r P = (b : B) × (g : Heap A) × (r ≡ ok b g) × P b g
