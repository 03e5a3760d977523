-- ===== src/Shell/Commands.antt =====
-- What the loop of cos318-project6/shell.c is to do with the words of a line, and the table of its commands.
use operativsystemer.Base.{
  ℕ, ◌≡◌, refl, Bool, ◌||◌, arith, ◌&&◌, List, [], ◌∷◌, ◌==◌, leb, if◌then◌else◌, length,
}
use operativsystemer.Text.Bytes.{same_list}
use operativsystemer.Shell.{
  Action, Command, exit, fire, clear, mkfs, open_file, read_file, write_file, lseek, mkdir, rmdir,
  cd, close_file, link, unlink, stat, ls, create, cat, list_processes, load_process, Entry, call,
  usage, not_found, nothing, commands,
}

-- The specification: the name of each command, and the numbers of words, its name included, that it takes.
unfoldable pub name_of : Command → List ℕ
name_of exit = b'e' ∷ b'x' ∷ b'i' ∷ b't' ∷ []
name_of fire = b'f' ∷ b'i' ∷ b'r' ∷ b'e' ∷ []
name_of clear = b'c' ∷ b'l' ∷ b'e' ∷ b'a' ∷ b'r' ∷ []
name_of mkfs = b'm' ∷ b'k' ∷ b'f' ∷ b's' ∷ []
name_of open_file = b'o' ∷ b'p' ∷ b'e' ∷ b'n' ∷ []
name_of read_file = b'r' ∷ b'e' ∷ b'a' ∷ b'd' ∷ []
name_of write_file = b'w' ∷ b'r' ∷ b'i' ∷ b't' ∷ b'e' ∷ []
name_of lseek = b'l' ∷ b's' ∷ b'e' ∷ b'e' ∷ b'k' ∷ []
name_of mkdir = b'm' ∷ b'k' ∷ b'd' ∷ b'i' ∷ b'r' ∷ []
name_of rmdir = b'r' ∷ b'm' ∷ b'd' ∷ b'i' ∷ b'r' ∷ []
name_of cd = b'c' ∷ b'd' ∷ []
name_of close_file = b'c' ∷ b'l' ∷ b'o' ∷ b's' ∷ b'e' ∷ []
name_of link = b'l' ∷ b'i' ∷ b'n' ∷ b'k' ∷ []
name_of unlink = b'u' ∷ b'n' ∷ b'l' ∷ b'i' ∷ b'n' ∷ b'k' ∷ []
name_of stat = b's' ∷ b't' ∷ b'a' ∷ b't' ∷ []
name_of ls = b'l' ∷ b's' ∷ []
name_of create = b'c' ∷ b'r' ∷ b'e' ∷ b'a' ∷ b't' ∷ b'e' ∷ []
name_of cat = b'c' ∷ b'a' ∷ b't' ∷ []
name_of list_processes = b'l' ∷ b'i' ∷ b's' ∷ b't' ∷ []
name_of load_process = b'l' ∷ b'o' ∷ b'a' ∷ b'd' ∷ []

unfoldable pub takes : Command → ℕ → Bool
takes exit argc = argc == 1
takes fire argc = argc == 1
takes clear argc = argc == 1
takes mkfs argc = argc == 1
takes open_file argc = argc == 3
takes read_file argc = argc == 3
takes write_file argc = argc == 3
takes lseek argc = argc == 3
takes mkdir argc = argc == 2
takes rmdir argc = argc == 2
takes cd argc = argc == 2
takes close_file argc = argc == 2
takes link argc = argc == 3
takes unlink argc = argc == 2
takes stat argc = argc == 2
takes ls argc = (argc == 1) || (argc == 2)
takes create argc = argc == 3
takes cat argc = argc == 2
takes list_processes argc = argc == 1
takes load_process argc = argc == 2

unfoldable pub all_commands : List Command
all_commands =
    exit ∷ fire ∷ clear ∷ mkfs ∷ open_file ∷ read_file ∷ write_file ∷ lseek ∷ mkdir ∷ rmdir ∷ cd
    ∷ close_file ∷ link ∷ unlink ∷ stat ∷ ls ∷ create ∷ cat ∷ list_processes ∷ load_process ∷ []

-- The command whose name is the first word is called where it takes that many words.
unfoldable pub choose : List Command → List ℕ → ℕ → Action
choose [] w argc = not_found
choose (c ∷ cs) w argc =
    if same_list (name_of c) w then if takes c argc then call c else usage else choose cs w argc

unfoldable pub action : List (List ℕ) → Action
unfolding all_commands
action [] = nothing
action (w ∷ ws) = choose all_commands w (length (w ∷ ws))

-- The entries of the table are those of the commands.
unfoldable pub AreEntries : List Entry → List Command → Type 0
AreEntries [] [] = Unit {0}
AreEntries [] (c ∷ cs) = ⊥
AreEntries (e ∷ es) [] = ⊥
AreEntries (e ∷ es) (c ∷ cs) =
    (e.name ≡ name_of c)
    × (e.code ≡ c)
    × ((argc : ℕ) → (leb e.least argc && leb argc e.most) ≡ takes c argc)
    × AreEntries es cs

count : (n argc : ℕ) → (leb n argc && leb argc n) ≡ (argc == n)
count n argc = ground arith

pub commands-AreEntries : AreEntries commands all_commands
unfolding AreEntries commands all_commands name_of takes
commands-AreEntries = (
  refl,
  refl,
  count 1,
  (
    refl,
    refl,
    count 1,
    (
      refl,
      refl,
      count 1,
      (
        refl,
        refl,
        count 1,
        (
          refl,
          refl,
          count 3,
          (
            refl,
            refl,
            count 3,
            (
              refl,
              refl,
              count 3,
              (
                refl,
                refl,
                count 3,
                (
                  refl,
                  refl,
                  count 2,
                  (
                    refl,
                    refl,
                    count 2,
                    (
                      refl,
                      refl,
                      count 2,
                      (
                        refl,
                        refl,
                        count 2,
                        (
                          refl,
                          refl,
                          count 3,
                          (
                            refl,
                            refl,
                            count 2,
                            (
                              refl,
                              refl,
                              count 2,
                              (
                                refl,
                                refl,
                                (λ argc. ground arith),
                                (
                                  refl,
                                  refl,
                                  count 3,
                                  (
                                    refl,
                                    refl,
                                    count 2,
                                    (refl, refl, count 1, (refl, refl, count 2, tt)),
                                  ),
                                ),
                              ),
                            ),
                          ),
                        ),
                      ),
                    ),
                  ),
                ),
              ),
            ),
          ),
        ),
      ),
    ),
  ),
)
