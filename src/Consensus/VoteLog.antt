-- ===== src/Consensus/VoteLog.antt =====
-- src/consensus/consensus.cpp: the record of votes is written once for each key.
use blockchain_demo.Prelude.{
  ℕ, ◌≡◌, refl, sym, subst, ap, ◌∙◌, Bool, true, false, Option, some, Bytes, codes, bytes_eq,
  bytes_eq_iff, if_cases, option_cases, eq_of_some, none-ne-some, Bool-cases, inl, inr,
}
use blockchain_demo.HashTable.{Table, get, put}
use blockchain_demo.HashTable.Hashing.{Key, ◌===◌}
use blockchain_demo.HashTable.Refinement.{Models, update}
use blockchain_demo.HashTable.Growth.{put-Yields}
use blockchain_demo.Consensus.{ConsensusEngine, ConsensusMessage, Evidence}
use blockchain_demo.Consensus.Engine.{add_event, vote_key}
use blockchain_demo.Consensus.Voting.{
  Recorded, record_vote, note_conflict, store_vote, put_back, vote_table,
}

-- No vote that `f` knows is lost or changed in `g`.
abbrev pub Extends : (Bytes → Option Bytes) → (Bytes → Option Bytes) → Type 0
Extends f g = (k v : Bytes) → f k ≡ some v → g k ≡ some v

update-Extends :
    ⦃key : Key Bytes⦄ (f : Bytes → Option Bytes) (k v : Bytes)
    → ((old : Bytes) → f k ≡ some old → old ≡ v)
    → Extends f (update f k (some v))
update-Extends ⦃key⦄ f k v agree q w h = elim (Bool-cases (k === q)) [
  | inl e ↦ rw e (ap some (sym (agree w (ap f ((key.equal_iff k q).0 e) ∙ h))))
  | inr e ↦ rw e h
]

clash : {b : Bool} → b ≡ true → b ≡ false → ⊥
clash t f = cc

module _ {D : Type 0} where
  prepare_table :
      (msg : ConsensusMessage) (e : ConsensusEngine D)
      → bytes_eq msg.type (codes "COMMIT") ≡ false
      → vote_table msg e ≡ e.prepare_votes
  unfolding vote_table
  prepare_table msg e h = rw h refl

  commit_table :
      (msg : ConsensusMessage) (e : ConsensusEngine D)
      → bytes_eq msg.type (codes "COMMIT") ≡ true
      → vote_table msg e ≡ e.commit_votes
  unfolding vote_table
  commit_table msg e h = rw h refl

  put_back_prepare :
      (now : ℕ) (msg : ConsensusMessage) (t : Table Bytes Bytes) (e : ConsensusEngine D)
      → bytes_eq msg.type (codes "COMMIT") ≡ false
      → ((put_back now msg t e).prepare_votes ≡ t)
        × ((put_back now msg t e).commit_votes ≡ e.commit_votes)
  unfolding put_back add_event
  put_back_prepare now msg t e h =
      let P : ConsensusEngine D → Type 0 =
        λ x. (x.prepare_votes ≡ t) × (x.commit_votes ≡ e.commit_votes) in
      if_cases P (bytes_eq msg.type (codes "COMMIT")) _ _ (λ c. absurd (clash c h))
        (λ _. (refl, refl))

  put_back_commit :
      (now : ℕ) (msg : ConsensusMessage) (t : Table Bytes Bytes) (e : ConsensusEngine D)
      → bytes_eq msg.type (codes "COMMIT") ≡ true
      → ((put_back now msg t e).prepare_votes ≡ e.prepare_votes)
        × ((put_back now msg t e).commit_votes ≡ t)
  unfolding put_back add_event
  put_back_commit now msg t e h =
      let P : ConsensusEngine D → Type 0 =
        λ x. (x.prepare_votes ≡ e.prepare_votes) × (x.commit_votes ≡ t) in
      if_cases P (bytes_eq msg.type (codes "COMMIT")) _ _ (λ _. (refl, refl))
        (λ c. absurd (clash h c))

module _ {D : Type 0} ⦃key : Key Bytes⦄ where
  -- The two tables of votes are sound, and read as the given functions.
  pub record Logs (e : ConsensusEngine D) (p c : Bytes → Option Bytes) : Type 0 where
    pub prepares : Models e.prepare_votes p
    pub commits : Models e.commit_votes c

  -- What `RecordVote` returns with: sound tables that know all the votes known before.
  pub record IsLogged (p c : Bytes → Option Bytes) (o : Option (Recorded D)) : Type 0 where
    pub result : Recorded D
    pub returned : o ≡ some result
    pub new_prepares : Bytes → Option Bytes
    pub new_commits : Bytes → Option Bytes
    pub logs : Logs result.engine new_prepares new_commits
    pub keeps_prepares : Extends p new_prepares
    pub keeps_commits : Extends c new_commits

  stored :
      (now : ℕ) (msg : ConsensusMessage) (e : ConsensusEngine D) (t t' : Table Bytes Bytes)
      → vote_table msg e ≡ t
      → put t (vote_key msg) msg.block_hash ≡ some t'
      → store_vote now msg e ≡ some (record { engine = put_back now msg t' e; recorded = true })
  unfolding store_vote
  stored now msg e t t' same h =
      let h' : put (vote_table msg e) (vote_key msg) msg.block_hash ≡ some t' =
        subst (λ x. put x (vote_key msg) msg.block_hash ≡ some t') (sym same) h in
      option_cases (λ o. o ≡ some (record { engine = put_back now msg t' e; recorded = true }))
        (put (vote_table msg e) (vote_key msg) msg.block_hash) _ _
        (λ n. absurd (none-ne-some (sym n ∙ h')))
        (λ x q.
          ap (λ y. some (record { engine = put_back now msg y e; recorded = true }))
            (eq_of_some (sym q ∙ h')))

  store_prepare :
      (now : ℕ) (msg : ConsensusMessage) (e : ConsensusEngine D) (p c : Bytes → Option Bytes)
      → Logs e p c
      → bytes_eq msg.type (codes "COMMIT") ≡ false
      → ((old : Bytes) → p (vote_key msg) ≡ some old → old ≡ msg.block_hash)
      → IsLogged p c (store_vote now msg e)
  store_prepare now msg e p c l type agree =
      let y = put-Yields e.prepare_votes p (vote_key msg) msg.block_hash l.prepares in
      let (first, second) = put_back_prepare now msg y.table e type in
      record {
        result = record { engine = put_back now msg y.table e; recorded = true };
        returned = stored now msg e e.prepare_votes y.table (prepare_table msg e type) y.returned;
        new_prepares = update p (vote_key msg) (some msg.block_hash);
        new_commits = c;
        logs = record {
          prepares =
              subst (λ t. Models t (update p (vote_key msg) (some msg.block_hash))) (sym first)
                y.models;
          commits = subst (λ t. Models t c) (sym second) l.commits;
        };
        keeps_prepares = update-Extends p (vote_key msg) msg.block_hash agree;
        keeps_commits = λ k v h. h;
      }

  store_commit :
      (now : ℕ) (msg : ConsensusMessage) (e : ConsensusEngine D) (p c : Bytes → Option Bytes)
      → Logs e p c
      → bytes_eq msg.type (codes "COMMIT") ≡ true
      → ((old : Bytes) → c (vote_key msg) ≡ some old → old ≡ msg.block_hash)
      → IsLogged p c (store_vote now msg e)
  store_commit now msg e p c l type agree =
      let y = put-Yields e.commit_votes c (vote_key msg) msg.block_hash l.commits in
      let (first, second) = put_back_commit now msg y.table e type in
      record {
        result = record { engine = put_back now msg y.table e; recorded = true };
        returned = stored now msg e e.commit_votes y.table (commit_table msg e type) y.returned;
        new_prepares = p;
        new_commits = update c (vote_key msg) (some msg.block_hash);
        logs = record {
          prepares = subst (λ t. Models t p) (sym first) l.prepares;
          commits =
              subst (λ t. Models t (update c (vote_key msg) (some msg.block_hash))) (sym second)
                y.models;
        };
        keeps_prepares = λ k v h. h;
        keeps_commits = update-Extends c (vote_key msg) msg.block_hash agree;
      }

  -- A vote that does not differ from an older one is stored.
  pub store_vote-IsLogged :
      (now : ℕ) (msg : ConsensusMessage) (e : ConsensusEngine D) (p c : Bytes → Option Bytes)
      → Logs e p c
      → ((old : Bytes) → get (vote_table msg e) (vote_key msg) ≡ some old → old ≡ msg.block_hash)
      → IsLogged p c (store_vote now msg e)
  unfolding vote_table
  store_vote-IsLogged now msg e p c l agree =
      elim (Bool-cases (bytes_eq msg.type (codes "COMMIT"))) [
        | inl h ↦
            store_commit now msg e p c l h
              (λ old f. agree old (rw h (l.commits.reads (vote_key msg) ∙ f)))
        | inr h ↦
            store_prepare now msg e p c l h
              (λ old f. agree old (rw h (l.prepares.reads (vote_key msg) ∙ f)))
      ]

  -- `RecordVote` always returns where the tables of votes are sound; they stay sound, and every vote
  -- recorded before is still there, for the block that it named.
  pub record_vote-IsLogged :
      (dump : Evidence → Bytes) (now : ℕ) (msg : ConsensusMessage) (e : ConsensusEngine D)
      (p c : Bytes → Option Bytes)
      → Logs e p c
      → IsLogged p c (record_vote dump now msg e)
  unfolding record_vote
  record_vote-IsLogged dump now msg e p c l =
      option_cases (IsLogged p c) (get (vote_table msg e) (vote_key msg)) _ _
        (λ free.
          store_vote-IsLogged now msg e p c l (λ old f. absurd (none-ne-some (sym free ∙ f))))
        (λ old found.
          if_cases (IsLogged p c) (bytes_eq old msg.block_hash) _ _
            (λ same.
              store_vote-IsLogged now msg e p c l
                (λ other f. eq_of_some (sym f ∙ found) ∙ (bytes_eq_iff old msg.block_hash).0 same))
            (λ _.
              unfold note_conflict add_event in
              (record {
                result = note_conflict dump now msg old e;
                returned = refl;
                new_prepares = p;
                new_commits = c;
                logs = record { prepares = l.prepares; commits = l.commits };
                keeps_prepares = λ k v h. h;
                keeps_commits = λ k v h. h;
              })))
