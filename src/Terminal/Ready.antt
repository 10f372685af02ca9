-- ===== src/Terminal/Ready.antt =====
-- runCommand of cmd/cmd-chat/main.go: a line at the prompt where nobody is connected.
pub mod Joining
pub mod Loop
use cmd_chat.Prelude.{
  ◌==◌, if◌then◌else◌, length, take, eq, bytes_beq, nat_eq, bytes_eq, Bytes, codes, ok, ℕ, ◌-◌, ◌/◌,
  min, Bool, true, not, ◌||◌, Option, none, some, [], ◌∷◌,
}
use cmd_chat.Profile.Storage.{Files}
use cmd_chat.Phonebook.{valid_id}
use cmd_chat.Chat.{Packet}
use cmd_chat.Chat.Room.{Log, members_of}
use cmd_chat.Terminal.{
  Shown, room_shown, invite_shown, Station, display_on, set_own_nickname, set_group_chat,
}
use cmd_chat.Terminal.Text.{
  to_lower, split_command, is_among, command_of, Command, quit, who, verify, invite, nick, group,
}
use cmd_chat.Terminal.Hosting.{notify_host}

-- What the loop of `ready` does next: the debug menu and the connection are done there.
pub data Next : Type 0 where
  stay exit debug_menu : Station → Next
  join : Bytes → Station → Next

module _ (f : Files) (account : Bytes) (lower : ℕ → ℕ) (taken : Log → ℕ → Packet → Bool) where
  -- The second switch and what comes after it; the texts of the answers are left out. An ID is ASCII,
  -- on which `strings.EqualFold` compares the lower cases.
  unfoldable pub run_word : Bytes → Station → Next
  run_word text s =
      let word = to_lower lower text in
      let exits = codes "5" ∷ codes "exit" ∷ codes "quit" ∷ codes "/quit" ∷ codes "/exit" ∷ [] in
      let ids = codes "3" ∷ codes "id" ∷ codes "/id" ∷ [] in
      let menus = codes "4" ∷ codes "debug" ∷ codes "/debug" ∷ [] in
      let helps = codes "?" ∷ codes "/?" ∷ codes "help" ∷ codes "/help" ∷ [] in
      let old = codes "1" ∷ codes "2" ∷ codes "start" ∷ codes "host" ∷ codes "join" ∷ [] in
      if length word == 0
      then stay s
      else if is_among exits word
      then exit s
      else if is_among ids word
      then stay s
      else if is_among menus word
      then debug_menu s
      else if is_among helps word || is_among old word
      then stay s
      else if not (valid_id text)
      then stay s
      else if bytes_beq word (to_lower lower s.id)
      then stay s
      else join text s

  -- The first switch; `/quit` and `/verify` are none of its cases.
  unfoldable pub run_option : Option Command → Bytes → Bytes → Station → Next
  run_option (some nick) argument text s =
      stay (notify_host f account lower taken (set_own_nickname f account argument s.desk) s)
  run_option (some group) argument text s = stay (set_group_chat f account lower argument s)
  run_option (some who) argument text s = stay (display_on s (room_shown (members_of s.host) s.id))
  run_option (some invite) argument text s = stay (display_on s (invite_shown s.id s.id true))
  run_option (some quit) argument text s = run_word text s
  run_option (some verify) argument text s = run_word text s
  run_option none argument text s = run_word text s

  unfoldable pub run_command : Bytes → Station → Next
  run_command text s =
      let (word, argument) = split_command lower text in
      run_option (command_of word) argument text s
