-- ===== src/Stack.antt =====
-- ThreadSafeStack.h and ThreadSafeStack.cpp. An entry is a std::unique_ptr: `none` is the null
-- pointer. Both operations hold the mutex throughout, so each is one step on the stack.
pub mod Class
pub mod Order
use small_http_server.Base.{Bool, List, [], ◌∷◌, Option, none, some, if◌then◌else◌}

abbrev pub Stack {ℓ} : Type ℓ → Type ℓ
Stack A = List (Option A)

module _ {ℓ} {A : Type ℓ} where
  unfoldable pub add_socket : Option A → Stack A → Stack A
  add_socket i stack = i ∷ stack

  -- The top of the stack; an empty stack has no socket to give.
  unfoldable pub pop_socket : Stack A → Option A × Stack A
  pop_socket [] = (none, [])
  pop_socket (s ∷ stack) = (s, stack)

  -- `GetSocket` after its wait, which ends when the stack is not empty, when a stop is requested, or
  -- after five seconds; `stop` is what `stop_requested` then answers.
  unfoldable pub get_socket : Bool → Stack A → Option A × Stack A
  unfolding pop_socket
  get_socket stop stack = if stop then (none, stack) else pop_socket stack

  -- The destructor, which destroys the connections that are left.
  unfoldable pub destroy : Stack A → List A
  destroy [] = []
  destroy (none ∷ stack) = destroy stack
  destroy (some s ∷ stack) = s ∷ destroy stack
