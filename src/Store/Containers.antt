-- ===== src/Store/Containers.antt =====
-- internal/hub/store/samples.go: what an accepted sample makes of the containers.
use serversmonitor.Prelude.{
  ℕ, ◌≡◌, refl, Bool, true, false, ◌&&◌, Option, none, some, List, [], ◌∷◌, String, if◌then◌else◌,
  ◌==◌, text_eq, String_discrete, arith, not,
}
use serversmonitor.Time.{Time}
use serversmonitor.Store.Samples.{
  ContainerRow, SampleTables, is_container, upsert_container, upsert_containers, container_row,
  has_container, drop_missing, insert_containers, insert_sample, stored,
}
use serversmonitor.Proto.Messages.{Sample, Container}

module _ {F : Type 0} where
  -- The row of a container of a host.
  unfoldable pub container_at : List (ContainerRow F) → ℕ → String → Option (ContainerRow F)
  container_at [] host_id name = none
  container_at (r ∷ rows) host_id name =
      let rest = container_at rows host_id name in
      if is_container host_id name r then some r else rest

  -- The last container of a sample with a name.
  unfoldable pub last_named : List (Container F) → String → Option (Container F)
  last_named [] name = none
  last_named (c ∷ cs) name = elim (last_named cs name) [
    | some d ↦ some d
    | none ↦ if text_eq c.name name then some c else none
  ]

  abbrev row_or :
      Option (ContainerRow F) → ℕ → Time → Option (Container F) → Option (ContainerRow F)
  row_or old host_id at none = old
  row_or old host_id at (some c) = some (container_row host_id at c)

  abbrev is_some : Option (Container F) → Bool
  is_some none = false
  is_some (some c) = true

  container_at-upsert :
      (c : ContainerRow F) (rows : List (ContainerRow F)) (host_id : ℕ) (name : String)
      → container_at (upsert_container c rows) host_id name
        ≡ (if is_container host_id name c then some c else container_at rows host_id name)
  unfolding container_at upsert_container is_container String_discrete
  container_at-upsert c [] host_id name = refl
  container_at-upsert c (r ∷ rows) host_id name =
      ground (arith, container_at-upsert c rows host_id name)

  container_at-drop_missing :
      (host : ℕ) (cs : List (Container F)) (rows : List (ContainerRow F)) (host_id : ℕ)
      (name : String)
      → container_at (drop_missing host cs rows) host_id name ≡ (
          if (host_id == host) && not (has_container cs name)
          then none
          else container_at rows host_id name)
  unfolding container_at drop_missing is_container String_discrete
  container_at-drop_missing host cs [] host_id name = ground arith
  container_at-drop_missing host cs (r ∷ rows) host_id name =
      ground (arith, container_at-drop_missing host cs rows host_id name)

  container_at-upserts :
      (host : ℕ) (at : Time) (cs : List (Container F)) (rows : List (ContainerRow F)) (host_id : ℕ)
      (name : String)
      → container_at (upsert_containers host at cs rows) host_id name ≡ (
          if host_id == host
          then row_or (container_at rows host_id name) host at (last_named cs name)
          else container_at rows host_id name)
  unfolding upsert_containers last_named is_container String_discrete container_row
  container_at-upserts host at [] rows host_id name = ground arith
  container_at-upserts host at (c ∷ cs) rows host_id name = ground (
    arith,
    container_at-upserts host at cs (upsert_container (container_row host at c) rows) host_id name,
    container_at-upsert (container_row host at c) rows host_id name,
  )

  has_container-last_named :
      (cs : List (Container F)) (name : String)
      → has_container cs name ≡ is_some (last_named cs name)
  unfolding has_container last_named String_discrete
  has_container-last_named [] name = refl
  has_container-last_named (c ∷ cs) name = ground (arith, has_container-last_named cs name)

  -- The row that a host's container has after a sample with Docker: that of the last of the sample's
  -- containers with its name, or none.
  abbrev pub reported : ℕ → Sample F → String → Option (ContainerRow F)
  reported host_id sm name = row_or none host_id sm.at (last_named sm.containers name)

  abbrev new_containers : SampleTables F → ℕ → Sample F → List (ContainerRow F)
  new_containers t host sm =
      if sm.docker_available
      then drop_missing host sm.containers (upsert_containers host sm.at sm.containers t.containers)
      else t.containers

  stored-containers :
      (t t' : SampleTables F) (host : ℕ) (sm : Sample F)
      → insert_sample t host sm ≡ stored t'
      → t'.containers ≡ new_containers t host sm
  unfolding insert_sample insert_containers
  stored-containers t t' host sm h = ground (arith, h)

  -- After an accepted sample with Docker, the table of containers has for its host exactly the
  -- sample's containers, each with what the sample's last one of that name says. What it has of any
  -- other host stays, and a sample without Docker changes nothing of it.
  pub insert_sample-containers :
      (t t' : SampleTables F) (host : ℕ) (sm : Sample F) (host_id : ℕ) (name : String)
      → insert_sample t host sm ≡ stored t'
      → container_at t'.containers host_id name ≡ (
          if sm.docker_available && (host_id == host)
          then reported host sm name
          else container_at t.containers host_id name)
  insert_sample-containers t t' host sm host_id name h =
      let rows = upsert_containers host sm.at sm.containers t.containers in
      ground (
        arith,
        stored-containers t t' host sm h,
        container_at-drop_missing host sm.containers rows host_id name,
        container_at-upserts host sm.at sm.containers t.containers host_id name,
        has_container-last_named sm.containers name,
      )
