-- ===== src/Scheduler/Cron/Fields/Examples.antt =====
-- The parser of cron expressions at concrete fields.
use kaos_control.Common.{
  split, Bytes, digits_value, magnitude, ℕ, ◌≤◌, ◌≡◌, refl, List, [], ◌∷◌, All, ok, arith, codes,
}
use kaos_control.Scheduler.Cron.{CronSchedule}
use kaos_control.Scheduler.Cron.Fields.{
  step_of, parse_one_part, parse_cron, parse_fields, parse_cron_field, parse_parts, atoi, ends_of,
  fill, cut,
}
use kaos_control.Scheduler.Cron.Fields.Part.{step_limit}
use kaos_control.Scheduler.Cron.Fields.Field.{IsParsed, SmallSteps, parse_cron_lem}

abbrev every_quarter : Bytes
every_quarter = codes "*/15"

abbrev office_hours : Bytes
office_hours = codes "9-17"

abbrev any : Bytes
any = codes "*"

abbrev fields : List Bytes
fields = every_quarter ∷ office_hours ∷ any ∷ any ∷ codes "1,3-5" ∷ []

abbrev quarters : ℕ
quarters = 35185445863425

abbrev schedule : CronSchedule
schedule = record {
  second = 1;
  minute = quarters;
  hour = 261632;
  dom = 4294967294;
  month = 8190;
  dow = 58;
}

parsed : parse_cron fields ≡ ok schedule
unfolding parse_cron parse_fields parse_cron_field parse_parts parse_one_part split step_of ends_of
    fill atoi magnitude digits_value cut
parsed = refl

quarters_parsed : parse_one_part every_quarter 0 59 ≡ ok quarters
unfolding parse_one_part step_of ends_of fill atoi magnitude digits_value cut
quarters_parsed = refl

small :
    (part rest : Bytes) (n : ℕ)
    → step_of part ≡ ok (n, rest)
    → n ≤ step_limit
    → (step : ℕ) (r : Bytes) → step_of part ≡ ok (step, r)
    → step ≤ step_limit
small part rest n e le step r h = ground (arith, e, h)

small_steps : All SmallSteps fields
unfolding split step_of atoi magnitude digits_value cut
small_steps = (
  (small every_quarter any 15 refl (omega arith), tt),
  (
    (small office_hours office_hours 1 refl (omega arith), tt),
    (
      (small any any 1 refl (omega arith), tt),
      (
        (small any any 1 refl (omega arith), tt),
        (
          (
            small (codes "1") (codes "1") 1 refl (omega arith),
            (small (codes "3-5") (codes "3-5") 1 refl (omega arith), tt),
          ),
          tt,
        ),
      ),
    ),
  ),
)

parse_cron_lem_example : IsParsed schedule
parse_cron_lem_example = parse_cron_lem fields schedule small_steps parsed

-- A step whose second addition overflows: the part lists 5, 3 and 1.
overflow_test : parse_one_part (codes "5/9223372036854775807") 0 59 ≡ ok 42
unfolding parse_one_part step_of ends_of fill atoi magnitude digits_value cut
overflow_test = refl
