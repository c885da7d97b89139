-- ===== src/Alarm/Letters.antt =====
-- What the letters of combineMail say.
use open_falcon.Prelude.{
  ◌≡◌, ◌<◌, refl, subst, map, length, true, Bool, List, [], ◌∷◌, ◌++◌, some, arith, All, filter,
  ◌==◌, eq_str,
}
use open_falcon.Prelude.Int.{pos}
use open_falcon.Prelude.Text.{Str, str, itoa}
use open_falcon.Alarm.{MailDto, Letter, join, mail_subject, mail_key, write_mail, combine_mail}
use open_falcon.Alarm.Combined.{NoDup, Each, has_key, write_all-Combined}

write_mail-returns :
    (arr : List MailDto) → 0 < length arr → (l : Letter) × (write_mail arr ≡ some l)
unfolding write_mail
write_mail-returns [] h = absurd (omega arith)
write_mail-returns (d ∷ []) h = (_, refl)
write_mail-returns (d ∷ e ∷ rest) h = (_, refl)

-- The content of a letter: the contents of the alarms, each on lines of its own.
abbrev pub IsJoined : Str → List MailDto → Type 0
IsJoined content [] = content ≡ []
IsJoined content (d ∷ []) = content ≡ d.content
IsJoined content (d ∷ e ∷ rest) =
    (more : Str) × (content ≡ d.content ++ (13 ∷ 10 ∷ []) ++ more) × IsJoined more (e ∷ rest)

-- The letter for some alarms: a single one as it is, and several under a subject that says how many.
abbrev pub IsLetter : List MailDto → Letter → Type 0
IsLetter [] l = ⊥
IsLetter (d ∷ []) l = (l.to ≡ d.email) × (l.subject ≡ d.subject) × (l.content ≡ d.content)
IsLetter (d ∷ e ∷ rest) l =
    (l.to ≡ d.email)
    × (l.subject
        ≡ str "[P"
          ++ itoa d.priority
          ++ str "]["
          ++ d.status
          ++ str "] "
          ++ itoa (pos (length (d ∷ e ∷ rest)))
          ++ str " "
          ++ d.metric)
    × IsJoined l.content (d ∷ e ∷ rest)

-- What makes two alarms go into one letter.
abbrev pub same_letter : Str → MailDto → Bool
same_letter k d = itoa d.priority ++ d.status ++ d.email ++ d.metric == k

join-IsJoined :
    (d : MailDto) (rest : List MailDto)
    → IsJoined (join (13 ∷ 10 ∷ []) (map (λ (x : MailDto). x.content) (d ∷ rest))) (d ∷ rest)
join-IsJoined d [] = refl
join-IsJoined d (e ∷ rest) =
    (join (13 ∷ 10 ∷ []) (map (λ (x : MailDto). x.content) (e ∷ rest)), refl, join-IsJoined e rest)

write_mail-IsLetter : (arr : List MailDto) (l : Letter) → write_mail arr ≡ some l → IsLetter arr l
unfolding write_mail mail_subject
write_mail-IsLetter [] l e = cc e
write_mail-IsLetter (d ∷ []) l e =
    let q : record { to = d.email; subject = d.subject; content = d.content } ≡ l = cc e in
    subst (IsLetter (d ∷ [])) q (refl, refl, refl)
write_mail-IsLetter (d ∷ e ∷ rest) l h =
    subst (IsLetter (d ∷ e ∷ rest)) (written h) (refl, refl, join-IsJoined d (e ∷ rest))
  where
    written : {x y : Letter} → some x ≡ some y → x ≡ y
    written q = cc q

module _ (dtos : List MailDto) where
  -- A letter for each key, made of the alarms with the key.
  abbrev pub EachMail : List Str → List Letter → Type 0
  EachMail [] [] = Unit {0}
  EachMail [] (l ∷ ls) = ⊥
  EachMail (k ∷ ks) [] = ⊥
  EachMail (k ∷ ks) (l ∷ ls) = IsLetter (filter (same_letter k) dtos) l × EachMail ks ls

  Each-EachMail :
      (ks : List Str) (ls : List Letter) → Each mail_key write_mail dtos ks ls → EachMail ks ls
  unfolding mail_key
  Each-EachMail [] [] h = tt
  Each-EachMail [] (l ∷ ls) h = absurd h
  Each-EachMail (k ∷ ks) [] h = absurd h
  Each-EachMail (k ∷ ks) (l ∷ ls) h =
      (write_mail-IsLetter (filter (same_letter k) dtos) l h.0, Each-EachMail ks ls h.1)

  -- combineMail does not panic, and sends one letter for each key that an alarm has: its priority,
  -- status, receiver and metric, in one text. The letter goes to the receiver of the first alarm with the
  -- key; it is that alarm as it is if there is no other, and else its subject says of how many alarms
  -- of what priority, status and metric it is made, and its content is that of all alarms with the key
  -- and of no other, in their order.
  pub combine_mail-EachMail :
      (keys : List Str) × (letters : List Letter) × (combine_mail dtos ≡ some letters)
      × NoDup keys
      × EachMail keys letters
      × All (λ d. has_key (itoa d.priority ++ d.status ++ d.email ++ d.metric) keys ≡ true) dtos
  unfolding combine_mail mail_key
  combine_mail-EachMail =
      let c = write_all-Combined mail_key write_mail dtos write_mail-returns in
      (c.keys, c.letters, c.returned, c.once, Each-EachMail c.keys c.letters c.each, c.every_alarm)
