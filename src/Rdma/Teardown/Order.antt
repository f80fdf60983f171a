-- ===== src/Rdma/Teardown/Order.antt =====
-- src/rdma/verbs.rs: the objects of a connection, what each call destroys, and the order that the
-- libraries' documentation asks for.
use rdmalib.Base.{
  ℕ, Bool, true, false, not, Option, none, some, List, [], ◌∷◌, ◌++◌, ◌==◌, ◌&&◌, ◌||◌,
  if◌then◌else◌,
}
use rdmalib.Rdma.Calls.{
  Call, ibv_dealloc_pd, ibv_destroy_cq, ibv_dereg_mr, rdma_destroy_event_channel, rdma_destroy_id,
  rdma_destroy_qp,
}
use rdmalib.Rdma.Domain.{ProtectionDomain}
use rdmalib.Rdma.OneSided.{Connection}

-- The objects of a connection: its queue pair, its id, its completion queue, its event channel and its
-- protection domain. `foreign` is an object that is not the connection's.
pub data Object : Type 0 where
  queue_pair cm_id completion_queue event_channel domain foreign : Object

abbrev pub same : Object → Object → Bool
same queue_pair queue_pair = true
same cm_id cm_id = true
same completion_queue completion_queue = true
same event_channel event_channel = true
same domain domain = true
same foreign foreign = true
same _ _ = false

-- rdma_destroy_id(3): the queue pair of an id goes before the id; rdma_destroy_event_channel(3): the
-- ids of a channel go before the channel; ibv_destroy_cq(3) and ibv_dealloc_pd(3): neither can be
-- destroyed while a queue pair is associated with it.
abbrev pub uses : Object → Object → Bool
uses queue_pair cm_id = true
uses queue_pair completion_queue = true
uses queue_pair domain = true
uses cm_id event_channel = true
uses _ _ = false

abbrev pub in_use : Object → List Object → Bool
in_use o [] = false
in_use o (a ∷ rest) = uses a o || in_use o rest

abbrev pub without_object : Object → List Object → Option (List Object)
without_object o [] = none
without_object o (a ∷ rest) =
    if same a o
    then some rest
    else elim (without_object o rest) [ none ↦ none | some left ↦ some (a ∷ left) ]

-- What is left of the objects that exist after some are destroyed, in this order; `none` if one of them
-- does not exist, or another one that exists still uses it.
abbrev pub destroyed : List Object → List Object → Option (List Object)
destroyed [] existing = some existing
destroyed (o ∷ rest) existing =
    if in_use o existing
    then none
    else elim (without_object o existing) [ none ↦ none | some left ↦ destroyed rest left ]

module _ (c : Connection) where
  abbrev own : Bool → Object → List Object
  own true o = o ∷ []
  own false o = foreign ∷ []

  abbrev is_domain : ℕ → Option ProtectionDomain → Bool
  is_domain pd none = false
  is_domain pd (some p) = pd == p.pd

  -- What a call destroys.
  abbrev pub destroys : Call → List Object
  destroys (rdma_destroy_qp id) = own (id == c.id) queue_pair
  destroys (rdma_destroy_id id) = own (id == c.id) cm_id
  destroys (ibv_destroy_cq cq) = own (cq == c.cq) completion_queue
  destroys (rdma_destroy_event_channel channel) = own (channel == c.event_channel) event_channel
  destroys (ibv_dealloc_pd pd) = own (is_domain pd c.pd) domain
  destroys (ibv_dereg_mr mr) = foreign ∷ []
  destroys _ = []

  abbrev pub all_destroyed : List Call → List Object
  all_destroyed [] = []
  all_destroyed (k ∷ rest) = destroys k ++ all_destroyed rest

  abbrev present : Bool → Object → List Object
  present true o = o ∷ []
  present false o = []

  abbrev has_domain : Option ProtectionDomain → Bool
  has_domain none = false
  has_domain (some pd) = true

  -- What the connection keeps alive: an object for each pointer that is not null, the queue pair if its
  -- id has one, and the domain if the connection has its last handle.
  abbrev pub kept_alive : Bool → Bool → List Object
  kept_alive paired sole =
      present (not (c.id == 0) && paired) queue_pair
      ++ (present (not (c.id == 0)) cm_id
          ++ (present (not (c.cq == 0)) completion_queue
              ++ (present (not (c.event_channel == 0)) event_channel
                  ++ present (has_domain c.pd && sole) domain)))
