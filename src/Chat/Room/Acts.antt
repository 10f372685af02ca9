-- ===== src/Chat/Room/Acts.antt =====
-- The room as its documentation has it: who is in it, by connection, how many they are, and whether
-- group chat is on; what can happen in it; and what the changes of the host are there.
use mathlib.Core.Path.{fun_ext}
use cmd_chat.Prelude.{
  ltb, ◌==◌, if◌then◌else◌, Bool-cases, length, eq_refl, nat_beq_iff, nat_eq, bytes_eq, Bytes, ℕ,
  ◌+◌, ◌-◌, ◌≡◌, refl, sym, ap, subst, ◌∙◌, inl, inr, Bool, false, not, ◌&&◌, ◌||◌, Option, none,
  some, arith,
}
use cmd_chat.Prelude.Map.{
  lookup, insert, lookup-insert, lookup-delete, IsMap, IsMap-insert, IsMap-delete, length-insert,
  length-delete,
}
use cmd_chat.Chat.{Member, Packet, Peer}
use cmd_chat.Chat.Room.{Host, Log, admits, enter, leave}
use cmd_chat.Chat.Room.Invariant.{renamed_to}

pub record View : Type 0 where
  pub who : ℕ → Option Member
  pub size : ℕ
  pub open_to_all : Bool

-- What can happen in the room. A peer comes, and its connection takes the greeting or does not.
pub data Act : Type 0 where
  comes : (k : ℕ) (id name : Bytes) (greeted : Bool) → Act
  takes_name : (k : ℕ) (name : Bytes) → Act
  goes : (k : ℕ) → Act
  opens : (b : Bool) → Act
  nothing : Act

abbrev pub put : ℕ → Option Member → (ℕ → Option Member) → ℕ → Option Member
put k o who j = if k == j then o else who j

unfoldable pub rename_in : Bytes → Option Member → Option Member
rename_in name none = none
rename_in name (some m) = some (renamed_to name m)

-- A newcomer is let in where group chat or an empty room allows it.
unfoldable pub play : Act → View → View
play (comes k id name greeted) v =
    if (v.open_to_all || v.size == 0) && greeted
    then record v {
      who = put k (some (record { id = id; name = name; host = false })) v.who;
      size = v.size + 1;
    }
    else v
play (takes_name k name) v = record v { who = put k (rename_in name (v.who k)) v.who }
play (goes k) v = record v { who = put k none v.who; size = v.size - 1 }
play (opens b) v = record v { open_to_all = b }
play nothing v = v

-- What the host's state stands for.
unfoldable pub view : Host → View
view h = record { who = λ k. lookup k h.members; size = length h.members; open_to_all = h.group }

View-eq :
    (v w : View)
    → ((j : ℕ) → v.who j ≡ w.who j)
    → v.size ≡ w.size
    → v.open_to_all ≡ w.open_to_all
    → v ≡ w
View-eq v w p q r =
    ap (λ f. record v { who = f }) (fun_ext p)
    ∙ (ap (λ n. record w { size = n; open_to_all = v.open_to_all }) q
        ∙ ap (λ b. record w { open_to_all = b }) r)

pub entered_keyed : (h : Host) (k : ℕ) (m : Member) → IsMap h.members → IsMap (enter h k m).members
unfolding enter
entered_keyed h k m keyed = IsMap-insert k m h.members keyed

there_now : (h : Host) (k : ℕ) (m : Member) → lookup k (enter h k m).members ≡ some m
unfolding enter
there_now h k m = lookup-insert k k m h.members ∙ rw (eq_refl k) refl

pub entered-view :
    (h : Host) (k : ℕ) (m : Member)
    → lookup k h.members ≡ none
    → view (enter h k m)
      ≡ record (view h) { who = put k (some m) (view h).who; size = (view h).size + 1 }
unfolding view enter
entered-view h k m new =
    View-eq _ _ (λ j. lookup-insert k j m h.members) (length-insert k m h.members ∙ rw new refl)
      refl

pub left-view :
    (taken : Log → ℕ → Packet → Bool) (h : Host) (k : ℕ) (peer : Peer) (m n : Member) (log : Log)
    → IsMap h.members
    → lookup k h.members ≡ some m
    → view (leave taken h k peer n log).0 ≡ play (goes k) (view h)
unfolding view leave play
left-view taken h k peer m n log keyed there =
    View-eq _ _ (λ j. lookup-delete k j h.members)
      (omega (arith, rw there at (length-delete k h.members keyed))) refl

pub named-view :
    (h : Host) (k : ℕ) (m : Member) (name : Bytes)
    → lookup k h.members ≡ some m
    → view (record h { members = insert k (renamed_to name m) h.members })
      ≡ play (takes_name k name) (view h)
unfolding view play rename_in
named-view h k m name there =
    View-eq _ _
      (λ j.
        lookup-insert k j (renamed_to name m) h.members
        ∙ ap (λ (o : Option Member). if k == j then rename_in name o else lookup j h.members)
            (sym there))
      (length-insert k (renamed_to name m) h.members ∙ rw there refl) refl

-- Who is let in and goes again has left no trace.
goes-comes :
    (h : Host) (k : ℕ) (m : Member)
    → lookup k h.members ≡ none
    → play
        (goes k)
        (record (view h) { who = put k (some m) (view h).who; size = (view h).size + 1 })
      ≡ view h
unfolding play view
goes-comes h k m new =
    View-eq _ _
      (λ j. elim (Bool-cases (k == j)) [
        | inl e ↦ rw e (sym (subst (λ i. lookup i h.members ≡ none) ((nat_beq_iff k j).0 e) new))
        | inr e ↦ rw e refl
      ])
      (omega arith) refl

pub undone-view :
    (taken : Log → ℕ → Packet → Bool) (h : Host) (k : ℕ) (peer : Peer) (m : Member) (log : Log)
    → IsMap h.members
    → lookup k h.members ≡ none
    → view (leave taken (enter h k m) k peer m log).0 ≡ view h
undone-view taken h k peer m log keyed new =
    left-view taken (enter h k m) k peer m m log (entered_keyed h k m keyed) (there_now h k m)
    ∙ (ap (play (goes k)) (entered-view h k m new) ∙ goes-comes h k m new)

pub left_keyed :
    (taken : Log → ℕ → Packet → Bool) (h : Host) (k : ℕ) (peer : Peer) (m : Member) (log : Log)
    → IsMap h.members
    → IsMap (leave taken h k peer m log).0.members
unfolding leave
left_keyed taken h k peer m log keyed = IsMap-delete k h.members keyed

pub admits-play : (h : Host) → admits h ≡ ((view h).open_to_all || (view h).size == 0)
unfolding admits view
admits-play h = by_size h.group (length h.members)
  where
    by_size : (g : Bool) (n : ℕ) → not (not g && ltb 0 n) ≡ (g || n == 0)
    by_size g n = ground arith
