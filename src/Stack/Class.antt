-- ===== src/Stack/Class.antt =====
-- The class ThreadSafeStack of ThreadSafeStack.h, as the threads see it: `contents` is what an object
-- holds, the last pointer that was added first.
use small_http_server.Base.{◌≡◌, refl, Bool, true, false, List, [], ◌∷◌, Option, none, some}
use small_http_server.Stack.{Stack, add_socket, get_socket, destroy}

-- The pointers that are not null.
abbrev pub sockets {ℓ} : {A : Type ℓ} → List (Option A) → List A
sockets [] = []
sockets (none ∷ stack) = sockets stack
sockets (some s ∷ stack) = s ∷ sockets stack

-- `get_socket` has what `stop_requested` answers behind the wait; `destroy` gives what is destroyed
-- with the object.
pub record ThreadSafeStack {ℓ} (A : Type ℓ) : Type (ℓ + 1) where
  pub Object : Type ℓ
  pub create : Object
  pub add_socket : Option A → Object → Object
  pub get_socket : Bool → Object → Option A × Object
  pub destroy : Object → List A
  pub contents : Object → List (Option A)
  pub contents-create : contents create ≡ []
  pub contents-add_socket : (i : Option A) (o : Object) → contents (add_socket i o) ≡ i ∷ contents o
  pub get_socket_stopped : (o : Object) → get_socket true o ≡ (none, o)
  pub get_socket_empty : (o : Object) → contents o ≡ [] → get_socket false o ≡ (none, o)
  pub get_socket_top :
      (i : Option A) (rest : List (Option A)) (o : Object)
      → contents o ≡ i ∷ rest
      → ((get_socket false o).0 ≡ i) × (contents (get_socket false o).1 ≡ rest)
  pub destroy-contents : (o : Object) → destroy o ≡ sockets (contents o)

module _ {ℓ} {A : Type ℓ} where
  pub get_stopped : (o : Stack A) → get_socket true o ≡ (none, o)
  unfolding get_socket
  get_stopped o = refl

  pub get_empty : (o : Stack A) → o ≡ [] → get_socket false o ≡ (none, o)
  unfolding get_socket
  get_empty [] e = refl
  get_empty (i ∷ o) e = cc

  pub get_top :
      (i : Option A) (rest : List (Option A)) (o : Stack A)
      → o ≡ i ∷ rest
      → ((get_socket false o).0 ≡ i) × ((get_socket false o).1 ≡ rest)
  unfolding get_socket
  get_top i rest [] e = cc
  get_top i rest (j ∷ o) e = (cc, cc)

  pub destroy-sockets : (o : Stack A) → destroy o ≡ sockets o
  unfolding destroy
  destroy-sockets [] = refl
  destroy-sockets (none ∷ o) = destroy-sockets o
  destroy-sockets (some s ∷ o) = rw (destroy-sockets o)

  pub add_top : (i : Option A) (o : Stack A) → add_socket i o ≡ i ∷ o
  unfolding add_socket
  add_top i o = refl

-- The stack of the model, in which the mutex makes each operation one step.
abbrev pub locked_stack {ℓ} : (A : Type ℓ) → ThreadSafeStack A
locked_stack A = record {
  Object = Stack A;
  create = [];
  add_socket = add_socket;
  get_socket = get_socket;
  destroy = destroy;
  contents = λ o. o;
  contents-create = refl;
  contents-add_socket = add_top;
  get_socket_stopped = get_stopped;
  get_socket_empty = get_empty;
  get_socket_top = get_top;
  destroy-contents = destroy-sockets;
}
