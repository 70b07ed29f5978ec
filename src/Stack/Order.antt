-- ===== src/Stack/Order.antt =====
-- In which order a ThreadSafeStack gives its connections back.
use mathlib.Core.List.{reverse, reverse-cons}
use small_http_server.Base.{
  ℕ, zero, suc, ◌≡◌, refl, sym, ap, ◌∙◌, false, List, [], ◌∷◌, ◌++◌, Option, length, length-append,
  append_assoc, arith, subst,
}
use small_http_server.Stack.{Stack}
use small_http_server.Stack.Class.{ThreadSafeStack, locked_stack}

length-reverse {ℓ} : {A : Type ℓ} (xs : List A) → length (reverse xs) ≡ length xs
length-reverse [] = refl
length-reverse (x ∷ xs) =
    omega
      (arith, ap length (reverse-cons x xs), length-append (reverse xs) (x ∷ []), length-reverse xs)

module _ {ℓ} {A : Type ℓ} (class : ThreadSafeStack A) where
  open class use {
    Object, add_socket, get_socket, destroy, contents, contents-add_socket, get_socket_top,
    destroy-contents,
  }

  abbrev pub add_all : List (Option A) → Object → Object
  add_all [] o = o
  add_all (i ∷ is) o = add_all is (add_socket i o)

  -- So many calls of GetSocket while no stop is requested.
  abbrev pub get_all : ℕ → Object → List (Option A) × Object
  get_all zero o = ([], o)
  get_all (suc n) o =
      let (i, o') = get_socket false o in let (is, o'') = get_all n o' in (i ∷ is, o'')

  contents-add_all :
      (is : List (Option A)) (o : Object) → contents (add_all is o) ≡ reverse is ++ contents o
  contents-add_all [] o = refl
  contents-add_all (i ∷ is) o =
      contents-add_all is (add_socket i o)
      ∙ ap (λ (s : List (Option A)). reverse is ++ s) (contents-add_socket i o)
      ∙ sym (append_assoc (reverse is) (i ∷ []) (contents o))
      ∙ ap (λ (s : List (Option A)). s ++ contents o) (sym (reverse-cons i is))

  get_all-contents :
      (is rest : List (Option A)) (o : Object)
      → contents o ≡ is ++ rest
      → ((get_all (length is) o).0 ≡ is) × (contents (get_all (length is) o).1 ≡ rest)
  get_all-contents [] rest o h = (refl, h)
  get_all-contents (i ∷ is) rest o h =
      let (top, below) = get_socket_top i (is ++ rest) o h in
      let (got, left) = get_all-contents is rest (get_socket false o).1 below in
      (cc (top, got), left)

  pub get_all-add_all :
      (is : List (Option A)) (o : Object)
      → ((get_all (length is) (add_all is o)).0 ≡ reverse is)
        × (contents (get_all (length is) (add_all is o)).1 ≡ contents o)
  get_all-add_all is o =
      subst
        (λ (n : ℕ).
          ((get_all n (add_all is o)).0 ≡ reverse is)
          × (contents (get_all n (add_all is o)).1 ≡ contents o))
        (length-reverse is)
        (get_all-contents (reverse is) (contents o) (add_all is o) (contents-add_all is o))

-- The connections that are added while none is taken are given back in the opposite order: the one
-- that has waited longest is the last to be served. What was on the stack before is left on it.
pub stack_get_all-add_all {ℓ} :
    {A : Type ℓ} (is : List (Option A)) (o : Stack A)
    → ((get_all (locked_stack A) (length is) (add_all (locked_stack A) is o)).0 ≡ reverse is)
      × ((get_all (locked_stack A) (length is) (add_all (locked_stack A) is o)).1 ≡ o)
stack_get_all-add_all {A} is o = get_all-add_all (locked_stack A) is o
