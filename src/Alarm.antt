-- ===== src/Alarm.antt =====
-- modules/alarm/cron/combiner.go: alarms of low priority, which are put together by receiver before
-- they are sent. The replies of Redis are a list, up to the one that says that the queue is empty; what
-- is written to Redis is the list of messages. JSON and the service that makes short links are
-- parameters. The order of a map's list is the order in which `range` happens to visit it. `none` is a
-- panic.
pub mod Combined
pub mod Letters
use open_falcon.Prelude.{
  ℕ, ◌+◌, Bool, true, false, List, [], ◌∷◌, ◌++◌, Option, none, some, ◌>>=◌, length, get_elem?,
  if◌then◌else◌, ◌==◌, eq_str, ◌||◌, ◌&&◌, nat_eq, map,
}
use open_falcon.Prelude.Int.{ℤ, pos}
use open_falcon.Prelude.Text.{Str, str, itoa}
use open_falcon.Prelude.Maps.{Map}
use open_falcon.Prelude.Groups.{group_by}

pub record MailDto : Type 0 where
  pub priority : ℤ
  pub metric : Str
  pub subject : Str
  pub content : Str
  pub email : Str
  pub status : Str

-- `SmsDto` and `ImDto`: `to` is the field `Phone` or `IM`.
pub record ShortDto : Type 0 where
  pub priority : ℤ
  pub metric : Str
  pub content : Str
  pub to : Str
  pub status : Str

-- What `WriteMail` and, without a subject, `WriteSms` and `WriteIM` are called with for one receiver.
pub record Letter : Type 0 where
  pub to : Str
  pub subject : Str
  pub content : Str

-- `strings.Join`.
abbrev pub join : Str → List Str → Str
join sep [] = []
join sep (s ∷ []) = s
join sep (s ∷ t ∷ rest) = s ++ sep ++ join sep (t ∷ rest)

-- `strings.Split(s, "][")`.
abbrev pub add_first : ℕ → List Str → List Str
add_first c [] = (c ∷ []) ∷ []
add_first c (w ∷ ws) = (c ∷ w) ∷ ws

abbrev pub split_brackets : Str → List Str
split_brackets [] = [] ∷ []
split_brackets (c ∷ []) = (c ∷ []) ∷ []
split_brackets (c ∷ d ∷ s) =
    let cut = split_brackets s in
    let next = split_brackets (d ∷ s) in
    if nat_eq c b']' && nat_eq d b'[' then [] ∷ cut else add_first c next

-- The loop of `popAllMailDto`, `popAllSmsDto` and `popAllImDto`.
unfoldable pub pop_all : {A : Type 0} → (Str → Option A) → List Str → List A
pop_all unmarshal [] = []
pop_all unmarshal (reply ∷ rest) =
    let more = pop_all unmarshal rest in
    if reply == [] || reply == str "nil"
    then more
    else elim (unmarshal reply) [ none ↦ more | some dto ↦ dto ∷ more ]

-- The second loop: a letter for each list of the map.
unfoldable pub write_all :
    {A : Type 0} → (List A → Option Letter) → Map Str (List A) → Option (List Letter)
write_all write [] = some []
write_all write ((key, arr) ∷ m) = write arr >>= λ l. write_all write m >>= λ ls. some (l ∷ ls)

unfoldable pub mail_key : MailDto → Str
mail_key d = itoa d.priority ++ d.status ++ d.email ++ d.metric

unfoldable pub mail_subject : MailDto → ℕ → Str
mail_subject d size =
    str "[P"
    ++ itoa d.priority
    ++ str "]["
    ++ d.status
    ++ str "] "
    ++ itoa (pos size)
    ++ str " "
    ++ d.metric

-- `arr[0]` is a panic for no letters.
unfoldable pub write_mail : List MailDto → Option Letter
unfolding mail_subject
write_mail [] = none
write_mail (d ∷ []) = some (record { to = d.email; subject = d.subject; content = d.content })
write_mail (d ∷ e ∷ rest) =
    let arr = d ∷ e ∷ rest in
    some (record {
      to = d.email;
      subject = mail_subject d (length arr);
      content = join (13 ∷ 10 ∷ []) (map (λ (x : MailDto). x.content) arr);
    })

unfoldable pub combine_mail : List MailDto → Option (List Letter)
unfolding group_by mail_key write_all write_mail
combine_mail dtos = write_all write_mail (group_by mail_key dtos [])

unfoldable pub short_key : ShortDto → Str
short_key d = itoa d.priority ++ d.status ++ d.to ++ d.metric

-- `eg`: the third part of the first alarm.
abbrev pub example_of : List Str → Str
example_of (a ∷ b ∷ c ∷ rest) = c
example_of _ = []

abbrev pub has_path : Option Str → Bool
has_path none = false
has_path (some path) = if path == [] then false else true

abbrev pub path_of : Option Str → Str
path_of none = []
path_of (some path) = path

module _ (link_to_sms : Str → Option Str) (dashboard : Str) where
  -- The texts of `combineSms` and `combineIM`, with a link or without one.
  unfoldable pub short_text : ShortDto → ℕ → Str → Str
  short_text d size content =
      let eg = example_of (split_brackets d.content) in
      let head =
        str "[P"
        ++ itoa d.priority
        ++ str "]["
        ++ d.status
        ++ str "] "
        ++ itoa (pos size)
        ++ str " "
        ++ d.metric in
      let path = link_to_sms content in
      if has_path path
      then head
        ++ str " e.g. "
        ++ eg
        ++ str " "
        ++ dashboard
        ++ str "/portal/links/"
        ++ path_of path
        ++ str " "
      else head ++ str ".  e.g. " ++ eg ++ str ". detail in email"

  unfoldable pub write_short : List ShortDto → Option Letter
  unfolding short_text
  write_short [] = none
  write_short (d ∷ []) = some (record { to = d.to; subject = []; content = d.content })
  write_short (d ∷ e ∷ rest) =
      let arr = d ∷ e ∷ rest in
      some (record {
        to = d.to;
        subject = [];
        content =
            short_text d (length arr) (join (str ",,") (map (λ (x : ShortDto). x.content) arr));
      })

  unfoldable pub combine_short : List ShortDto → Option (List Letter)
  unfolding group_by short_key write_all write_short
  combine_short dtos = write_all write_short (group_by short_key dtos [])

  -- The rounds of `CombineIM` and `CombineSms`, of the replies of Redis.
  unfoldable pub combine_im : (Str → Option ShortDto) → List Str → Option (List Letter)
  unfolding pop_all combine_short
  combine_im unmarshal replies = combine_short (pop_all unmarshal replies)

  unfoldable pub combine_sms : (Str → Option ShortDto) → List Str → Option (List Letter)
  unfolding pop_all combine_short
  combine_sms unmarshal replies = combine_short (pop_all unmarshal replies)
