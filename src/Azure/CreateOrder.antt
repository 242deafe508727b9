-- ===== src/Azure/CreateOrder.antt =====
-- internal/hub/azure/provision.go, CreateVM: what a run leaves and what it has written down.
use serversmonitor.Prelude.{
  ◌≡◌, refl, inl, inr, Bool, true, false, Option, none, some, List, [], ◌∷◌, String, text_eq,
  Bool-cases, Option-cases,
}
use serversmonitor.Azure.Inventory.{Strings}
use serversmonitor.Azure.ProvisionConfig.{
  ProvisionConfig, SubnetParts, Outbound, Missing, ready, parse_subnet_id, parse_image,
}
use serversmonitor.Azure.Provision.{
  Created, CreateError, CreateRun, nic_of, vm_of, create_all, create_vm, put_failed, await_failed,
  not_recorded, Put, put_refused, put_unfinished, put_done, not_ready, no_name, bad_image,
  no_cloud_init, network_unread,
}

-- The runs of CreateVM for a NIC and a VM, by what landed, what may be there, and what was recorded.
pub data Course (nic vm : Created) : CreateRun → Type 0 where
  -- a refusal or a failed read, or Azure refused the NIC
  before_any :
      {run : CreateRun} (e : CreateError)
      → run.landed ≡ []
      → run.unfinished ≡ none
      → run.recorded ≡ []
      → run.error ≡ some e
      → Course nic vm run
  nic_unfinished :
      {run : CreateRun} (e : CreateError)
      → run.landed ≡ []
      → run.unfinished ≡ some nic
      → run.recorded ≡ []
      → run.error ≡ some e
      → Course nic vm run
  nic_unrecorded :
      {run : CreateRun} (e : CreateError)
      → run.landed ≡ nic ∷ []
      → run.unfinished ≡ none
      → run.recorded ≡ []
      → run.error ≡ some e
      → Course nic vm run
  no_vm :
      {run : CreateRun} (e : CreateError)
      → run.landed ≡ nic ∷ []
      → run.unfinished ≡ none
      → run.recorded ≡ nic ∷ []
      → run.error ≡ some e
      → Course nic vm run
  vm_unfinished :
      {run : CreateRun} (e : CreateError)
      → run.landed ≡ nic ∷ []
      → run.unfinished ≡ some vm
      → run.recorded ≡ nic ∷ []
      → run.error ≡ some e
      → Course nic vm run
  vm_unrecorded :
      {run : CreateRun} (e : CreateError)
      → run.landed ≡ nic ∷ vm ∷ []
      → run.unfinished ≡ none
      → run.recorded ≡ nic ∷ []
      → run.error ≡ some e
      → Course nic vm run
  complete :
      {run : CreateRun}
      → run.landed ≡ nic ∷ vm ∷ []
      → run.unfinished ≡ none
      → run.recorded ≡ nic ∷ vm ∷ []
      → run.error ≡ none
      → Course nic vm run

module _ (put : Created → Put) (can_record : Created → Bool) where
  create_all-Course :
      (o : Outbound) (nic vm : Created)
      → Course nic vm (create_all put can_record o (nic ∷ vm ∷ []) [] [])
  unfolding create_all
  create_all-Course o nic vm = by_nic (put nic) refl
    where
      by_vm :
          (q : Put)
          → put vm ≡ q
          → put nic ≡ put_done
          → can_record nic ≡ true
          → Course nic vm (create_all put can_record o (nic ∷ vm ∷ []) [] [])
      by_vm put_refused q p c = rw (create_all, p, c, q) (no_vm put_failed refl refl refl refl)
      by_vm put_unfinished q p c =
          rw (create_all, p, c, q) (vm_unfinished await_failed refl refl refl refl)
      by_vm put_done q p c = elim (Bool-cases (can_record vm)) [
        | inr d ↦ rw (create_all, p, c, q, d) (vm_unrecorded not_recorded refl refl refl refl)
        | inl d ↦ rw (create_all, p, c, q, d) (complete refl refl refl refl)
      ]

      by_nic :
          (a : Put)
          → put nic ≡ a
          → Course nic vm (create_all put can_record o (nic ∷ vm ∷ []) [] [])
      by_nic put_refused p = rw (create_all, p) (before_any put_failed refl refl refl refl)
      by_nic put_unfinished p = rw (create_all, p) (nic_unfinished await_failed refl refl refl refl)
      by_nic put_done p = elim (Bool-cases (can_record nic)) [
        | inr c ↦ rw (create_all, p, c) (nic_unrecorded not_recorded refl refl refl refl)
        | inl c ↦ by_vm (put vm) refl p c
      ]

  module _ (text : Strings) (reachable : String → Bool) (p : ProvisionConfig) (name : String)
      (cloud_init : Bool) (network : SubnetParts → Option Outbound) (parts : SubnetParts) where
    -- A machine's creation asks for the VM only when the NIC has landed and is recorded, and at most one
    -- resource is, or may be, there that is not recorded, the last one, in which case the run has failed.
    pub create_vm-Course :
        parse_subnet_id text p.subnet_id ≡ some parts
        → Course
            (nic_of parts name)
            (vm_of parts name)
            (create_vm put can_record text reachable p name cloud_init network)
    unfolding create_vm
    create_vm-Course s = by_ready (ready text reachable p) refl
      where
        by_image :
            ready text reachable p ≡ []
            → text_eq (text.trim_space name) "" ≡ false
            → Course
                (nic_of parts name)
                (vm_of parts name)
                (create_vm put can_record text reachable p name cloud_init network)
        by_image r n = elim (Option-cases (parse_image text.trim_space p.image)) [
          | inl i ↦ rw (create_vm, r, n, s, i) (before_any bad_image refl refl refl refl)
          | inr (image, i) ↦ elim (Bool-cases cloud_init) [
            | inr c ↦ rw (create_vm, r, n, s, i, c) (before_any no_cloud_init refl refl refl refl)
            | inl c ↦ elim (Option-cases (network parts)) [
              | inl w ↦
                  rw (create_vm, r, n, s, i, c, w) (before_any network_unread refl refl refl refl)
              | inr (o, w) ↦
                  rw (create_vm, r, n, s, i, c, w)
                    (create_all-Course o (nic_of parts name) (vm_of parts name))
            ]
          ]
        ]

        by_ready :
            (ms : List Missing)
            → ready text reachable p ≡ ms
            → Course
                (nic_of parts name)
                (vm_of parts name)
                (create_vm put can_record text reachable p name cloud_init network)
        by_ready (m ∷ ms) r =
            rw (create_vm, r) (before_any (not_ready (m ∷ ms)) refl refl refl refl)
        by_ready [] r = elim (Bool-cases (text_eq (text.trim_space name) "")) [
          | inl n ↦ rw (create_vm, r, n) (before_any no_name refl refl refl refl)
          | inr n ↦ by_image r n
        ]
