-- ===== src/Provider/Wrapping.antt =====
-- Registrations past the last id: the counter starts anew, and ids are given out again.
use rdmalib.Base.{
  ℕ, ◌+◌, ◌%◌, ◌^◌, ◌<◌, ◌≡◌, refl, sym, ap, ◌∙◌, some, List, [], ◌∷◌, All, length, arith,
}
use rdmalib.Base.Io.{ok}
use rdmalib.Base.Map.{get, nat_key, pair_key, get-insert_self}
use rdmalib.Meta.Message.{Str}
use rdmalib.Rdma.Calls.{Library, Host}
use rdmalib.Rdma.Domain.{MemoryRegion, tuple}
use rdmalib.Provider.State.{Vector, Provider, register_typed, tuple_of}
use rdmalib.Provider.Tuples.{tuple_of_known}

-- The provider after the registrations of the list.
abbrev pub register_all : List (Str × Vector) → Provider → Provider
register_all [] p = p
register_all ((name, buffer) ∷ rest) p = register_all rest (register_typed name buffer p).1

-- Elements that are not zero-sized.
abbrev pub HasBytes : Str × Vector → Type 0
HasBytes (name, buffer) = 0 < buffer.elem.size

module _ (name : Str) (buffer : Vector) (p : Provider) (pos : 0 < buffer.elem.size) where
  next_after : (register_typed name buffer p).1.next_id ≡ (p.next_id + 1) % 2 ^ 32
  unfolding register_typed
  next_after = ground arith

  tuples_after : (register_typed name buffer p).1.shared.tuples ≡ p.shared.tuples
  unfolding register_typed
  tuples_after = ground arith

  answer_after : (register_typed name buffer p).0 ≡ ok p.next_id
  unfolding register_typed
  answer_after = ground arith

  owners_after : get p.next_id (register_typed name buffer p).1.owners ≡ some buffer
  unfolding register_typed
  owners_after = ground (arith, get-insert_self p.next_id buffer p.owners)

next_after_all :
    (bs : List (Str × Vector)) (p : Provider)
    → All HasBytes bs
    → p.next_id < 2 ^ 32
    → (register_all bs p).next_id ≡ (p.next_id + length bs) % 2 ^ 32
next_after_all [] p h fits = omega arith
next_after_all ((name, buffer) ∷ rest) p (pos, h) fits =
    let this = next_after name buffer p pos in
    let later : (register_all rest (register_typed name buffer p).1).next_id
        ≡ ((register_typed name buffer p).1.next_id + length rest) % 2 ^ 32 =
      next_after_all rest (register_typed name buffer p).1 h (omega (arith, this)) in
    omega (arith, this, later)

tuples_after_all :
    (bs : List (Str × Vector)) (p : Provider)
    → All HasBytes bs
    → (register_all bs p).shared.tuples ≡ p.shared.tuples
tuples_after_all [] p h = refl
tuples_after_all ((name, buffer) ∷ rest) p (pos, h) =
    tuples_after_all rest (register_typed name buffer p).1 h ∙ tuples_after name buffer p pos

module _ (lib : Library) where
  -- A provider holds a tuple of the region `id` for a group, and so many regions are registered, all
  -- of elements that are not zero-sized, that the 32-bit counter comes to `id` again. Then the next
  -- registration gets `id` too and its buffer takes the old one's place, but a look-up of the tuple
  -- still answers with the old registration, without a call.
  pub register_typed_wrapped :
      (p : Provider) (id group : ℕ) (mr : MemoryRegion) (bs : List (Str × Vector)) (name : Str)
      (buffer : Vector) (h : Host lib.World)
      → p.next_id < 2 ^ 32
      → All HasBytes bs
      → (p.next_id + length bs) % 2 ^ 32 ≡ id
      → get (id, group) p.shared.tuples ≡ some mr
      → 0 < buffer.elem.size
      → ((register_typed name buffer (register_all bs p)).0 ≡ ok id)
        × (get id (register_typed name buffer (register_all bs p)).1.owners ≡ some buffer)
        × (tuple_of lib id group (record {
          shared = (register_typed name buffer (register_all bs p)).1.shared;
          host = h;
        })
            ≡ (
              ok (some (tuple mr)),
              record {
                shared = (register_typed name buffer (register_all bs p)).1.shared;
                host = h;
              },
            ))
  register_typed_wrapped p id group mr bs name buffer h fits bytes comes held pos =
      let again : (register_all bs p).next_id ≡ id = next_after_all bs p bytes fits ∙ comes in
      (
        answer_after name buffer (register_all bs p) pos ∙ ap (λ n. ok n) again,
        ap (λ n. get n (register_typed name buffer (register_all bs p)).1.owners) (sym again)
            ∙ owners_after name buffer (register_all bs p) pos,
        tuple_of_known lib id group _ (
            ap (get (id, group))
              (tuples_after name buffer (register_all bs p) pos ∙ tuples_after_all bs p bytes)
            ∙ held),
      )
