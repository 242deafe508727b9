-- ===== src/Azure/OrphanReads.antt =====
-- internal/hub/azure/orphans.go: which resources an orphan pass finds unused. The answer to the read of
-- each resource is given, and the fields of its body that the detectors read.
use serversmonitor.Prelude.{
  ◌≡◌, ◌⊎◌, refl, sym, ap, ◌∙◌, subst, ℕ, Bool, true, false, not, Option, none, some, List, [], ◌∷◌,
  String, if◌then◌else◌, ◌==◌, text_eq, lookup, insert, String_discrete, text_eq_yes, text_eq_no,
  lookup-insert_self, lookup-insert_ne, inl, inr,
}
use serversmonitor.Prelude.Int.{ℤ, pos}
use serversmonitor.Azure.Inventory.{Strings, Resource}

-- What the detectors read of a body; a missing number of sites is none.
pub record Properties : Type 0 where
  pub disk_state : String
  pub has_ip_configuration : Bool
  pub has_virtual_machine : Bool
  pub number_of_sites : Option ℤ

pub data Got : Type 0 where
  -- the status of the failure, 0 when there was no answer
  get_failed : ℕ → Got
  get_unparsed : Got
  got : Properties → Got

pub data Detector : Type 0 where
  disk public_ip nic plan : Detector

-- The keys of `detectors`.
unfoldable pub detector_of : String → Option Detector
detector_of type =
    if text_eq type "microsoft.compute/disks"
    then some disk
    else if text_eq type "microsoft.network/publicipaddresses"
    then some public_ip
    else if text_eq type "microsoft.network/networkinterfaces"
    then some nic
    else if text_eq type "microsoft.web/serverfarms"
    then some plan
    else none

abbrev pub detector_reason : Detector → String
detector_reason disk = "disk_unattached"
detector_reason public_ip = "ip_unassociated"
detector_reason nic = "nic_without_vm"
detector_reason plan = "plan_without_site"

abbrev pub is_zero_sites : Option ℤ → Bool
is_zero_sites (some (pos n)) = n == 0
is_zero_sites _ = false

unfoldable pub is_orphan : Detector → Properties → Bool
is_orphan disk p = text_eq p.disk_state "Unattached"
is_orphan public_ip p = not p.has_ip_configuration
is_orphan nic p = not p.has_virtual_machine
is_orphan plan p = is_zero_sites p.number_of_sites

pub data Verdict : Type 0 where
  -- nothing is said of the resource
  silent : Verdict
  flagged : String → Verdict
  aborts : Verdict

unfoldable pub read_verdict : Detector → Got → Verdict
read_verdict d (get_failed status) =
    if status == 403 then flagged "unverified" else if status == 404 then silent else aborts
read_verdict d get_unparsed = aborts
read_verdict d (got p) = if is_orphan d p then flagged (detector_reason d) else silent

module _ (text : Strings) (get : Resource → Got) where
  -- The body of the loop for one resource; no read is made of a type without a detector.
  unfoldable pub verdict : Resource → Verdict
  verdict r = elim (detector_of (text.to_lower r.type)) [
    | none ↦ silent
    | some d ↦ read_verdict d (get r)
  ]

  unfoldable pub reasons_from :
      List Resource → List (String × String) → Option (List (String × String))
  reasons_from [] out = some out
  reasons_from (r ∷ rs) out = elim (verdict r) [
    | silent ↦ reasons_from rs out
    | flagged reason ↦ reasons_from rs (insert String_discrete r.id reason out)
    | aborts ↦ none
  ]

  -- OrphanReasons: none when the sweep is aborted.
  unfoldable pub orphan_reasons : List Resource → Option (List (String × String))
  orphan_reasons rs = reasons_from rs []

  -- Whether a read that decides about a resource failed.
  unfoldable pub read_fails : List Resource → Bool
  read_fails [] = false
  read_fails (r ∷ rs) =
      let rest = read_fails rs in
      elim (verdict r) [ silent ↦ rest | flagged reason ↦ rest | aborts ↦ true ]

  -- What the last flagged read of an id says, or what was said before.
  unfoldable pub last_flag : List Resource → String → Option String → Option String
  last_flag [] id before = before
  last_flag (r ∷ rs) id before = elim (verdict r) [
    | silent ↦ last_flag rs id before
    | flagged reason ↦ last_flag rs id (if text_eq r.id id then some reason else before)
    | aborts ↦ last_flag rs id before
  ]

  -- The pass is aborted by a read that failed, or gives an id the reason of its last flag.
  abbrev pub Judged : List Resource → List (String × String) → String → Type 0
  Judged rs out id =
      ((reasons_from rs out ≡ none) × (read_fails rs ≡ true))
      ⊎ ((m : List (String × String)) × (reasons_from rs out ≡ some m)
          × (read_fails rs ≡ false)
          × (lookup String_discrete id m ≡ last_flag rs id (lookup String_discrete id out)))

  lookup-flag :
      (k : String) (reason : String) (out : List (String × String)) (id : String)
      → lookup String_discrete id (insert String_discrete k reason out)
        ≡ (if text_eq k id then some reason else lookup String_discrete id out)
  lookup-flag k reason out id = elim (String_discrete k id) [
    | yes e ↦
        subst (λ j. lookup String_discrete j (insert String_discrete k reason out) ≡ some reason) e
          (lookup-insert_self String_discrete k reason out)
        ∙ sym (
            ap (λ b. if b then some reason else lookup String_discrete id out) (text_eq_yes k id e))
    | no ne ↦
        lookup-insert_ne String_discrete k id reason out ne
        ∙ sym (
            ap (λ b. if b then some reason else lookup String_discrete id out) (text_eq_no k id ne))
  ]

  reasons_from-Judged :
      (rs : List Resource) (out : List (String × String)) (id : String) → Judged rs out id
  unfolding reasons_from read_fails last_flag
  reasons_from-Judged [] out id = inr (out, refl, refl, refl)
  reasons_from-Judged (r ∷ rs) out id =
      by_verdict (verdict r) refl (λ o. reasons_from-Judged rs o id)
    where
      flagged_one :
          (reason : String)
          → verdict r ≡ flagged reason
          → Judged rs (insert String_discrete r.id reason out) id
          → Judged (r ∷ rs) out id
      flagged_one reason e (inl h) = inl (rw (reasons_from, e) h.0, rw (read_fails, e) h.1)
      flagged_one reason e (inr (m, out', none_fails, flag)) = inr (
        m,
        rw (reasons_from, e) out',
        rw (read_fails, e) none_fails,
        rw (last_flag, e) (flag ∙ ap (last_flag rs id) (lookup-flag r.id reason out id)),
      )

      by_verdict :
          (v : Verdict)
          → verdict r ≡ v
          → ((o : List (String × String)) → Judged rs o id)
          → Judged (r ∷ rs) out id
      by_verdict silent e ih = rw (reasons_from, read_fails, last_flag, e) (ih out)
      by_verdict (flagged reason) e ih =
          flagged_one reason e (ih (insert String_discrete r.id reason out))
      by_verdict aborts e ih = inl (rw (reasons_from, e) refl, rw (read_fails, e) refl)

  -- An orphan pass is aborted when a read that decides about a resource fails, and only then; otherwise
  -- its reason for an id is what the last read that flagged it says, an unreadable one saying so.
  pub orphan_reasons_lem :
      (rs : List Resource) (id : String)
      → ((orphan_reasons rs ≡ none) × (read_fails rs ≡ true))
        ⊎ ((m : List (String × String)) × (orphan_reasons rs ≡ some m)
            × (read_fails rs ≡ false)
            × (lookup String_discrete id m ≡ last_flag rs id none))
  unfolding orphan_reasons lookup
  orphan_reasons_lem rs id = reasons_from-Judged rs [] id
