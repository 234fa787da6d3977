-- ===== src/Teachers.antt =====
-- backend/internal/teachers: the profiles of teachers and the catalogue of those that are public
-- (teacher.go), with the tables of its repository.
pub mod Slug
pub mod Grammar
pub mod Profile
pub mod Repository
pub mod Service
pub mod Moderation
pub mod Naming
pub mod Changes
pub mod States
pub mod Effects
pub mod Steps
pub mod Lives
pub mod Lists
pub mod Reading
pub mod Storing
pub mod Publishing
pub mod Validity
pub mod Search
pub mod Filters
pub mod Listing
mod Tests
use Prim.Native.String.{String}
use find_language_tutor.Prelude.{ℕ, Bool, Option, List}
use find_language_tutor.Prelude.Int.{ℤ}

-- The moderation state of a profile.
pub data TeacherStatus : Type 0 where
  pending approved rejected suspended : TeacherStatus

pub record Language : Type 0 where
  pub code : String
  pub name : String
  pub level : String

pub record Experience : Type 0 where
  pub title : String
  pub org : String
  pub period : String

pub record LanguageEntry : Type 0 where
  pub role : String
  pub code : String
  pub name : String
  pub level : String

-- The columns that the owner of a profile may write: the fields of ProfileInput that are no lists.
pub record Fields : Type 0 where
  pub display_name : String
  pub headline : String
  pub kind : String
  pub country_code : String
  pub country_name : String
  pub city : String
  pub timezone : String
  pub price_per_hour_minor : ℤ
  pub trial_price_minor : Option ℤ
  pub currency : String
  pub about : String
  pub teaching_style : String
  pub avatar_url : String
  pub intro_video_url : String
  pub video_thumbnail_url : String
  pub meeting_url : String

pub record ProfileInput : Type 0 where
  pub fields : Fields
  pub languages : List LanguageEntry
  pub focus : List String
  pub experience : List Experience

-- A field that is left out is `none`; a list that is given replaces the old one.
pub record ProfilePatch : Type 0 where
  pub display_name : Option String
  pub headline : Option String
  pub kind : Option String
  pub country_code : Option String
  pub country_name : Option String
  pub city : Option String
  pub timezone : Option String
  pub price_per_hour_minor : Option ℤ
  pub trial_price_minor : Option ℤ
  pub currency : Option String
  pub about : Option String
  pub teaching_style : Option String
  pub avatar_url : Option String
  pub intro_video_url : Option String
  pub video_thumbnail_url : Option String
  pub meeting_url : Option String
  pub languages : Option (List LanguageEntry)
  pub focus : Option (List String)
  pub experience : Option (List Experience)

pub record ProfileUpdate : Type 0 where
  pub input : ProfileInput
  pub replace_languages : Bool
  pub replace_focus : Bool
  pub replace_experience : Bool

-- A row of the teachers table. `rating` counts tenths.
pub record TeacherRow : Type 0 where
  pub id : ℕ
  pub slug : String
  pub user_id : Option ℕ
  pub fields : Fields
  pub status : TeacherStatus
  pub verified : Bool
  pub moderation_note : String
  pub rating : ℕ
  pub review_count : ℕ
  pub lessons_completed : ℕ
  pub student_count : ℕ
  pub response_time_hours : ℕ
  pub accepting_students : Bool

pub record LanguageRow : Type 0 where
  pub teacher_id : ℕ
  pub role : String
  pub code : String
  pub name : String
  pub level : String
  pub position : ℕ

pub record FocusRow : Type 0 where
  pub teacher_id : ℕ
  pub tag : String
  pub position : ℕ

pub record ExperienceRow : Type 0 where
  pub teacher_id : ℕ
  pub title : String
  pub org : String
  pub period : String
  pub position : ℕ

-- The aggregate: a row with its lists.
pub record Teacher : Type 0 where
  pub row : TeacherRow
  pub teaches : List Language
  pub also_speaks : List Language
  pub focus : List String
  pub experience : List Experience

-- `owner_id` is 0 for an unclaimed profile.
pub record Ref : Type 0 where
  pub id : ℕ
  pub slug : String
  pub owner_id : ℕ

pub record Catalog : Type 0 where
  pub next_id : ℕ
  pub teachers : List TeacherRow
  pub languages : List LanguageRow
  pub focus : List FocusRow
  pub experience : List ExperienceRow

-- What validateProfile objects to.
pub data ProfileFault : Type 0 where
  required : String → ProfileFault
  bad_kind bad_currency negative_price negative_trial_price bad_timezone bad_meeting_url :
      ProfileFault
  bad_language_role blank_language bad_language_level duplicate_language : ℕ → ProfileFault
  blank_focus blank_experience : ℕ → ProfileFault

pub data TeacherError : Type 0 where
  teacher_not_found profile_exists not_owner no_free_slug database_error : TeacherError
  invalid_profile : ProfileFault → TeacherError
  -- the operator's actions on profiles
  invalid_transition note_required : TeacherError

-- The scheme and the host of a URL.
pub record Url : Type 0 where
  pub scheme : String
  pub host : String

-- The libraries: strings.TrimSpace, strings.ToLower, whether time.LoadLocation knows a zone,
-- url.Parse; and the database's order on texts.
pub record Texts : Type 0 where
  pub trim_space : String → String
  pub to_lower : String → String
  pub knows_zone : String → Bool
  pub parse_url : String → Option Url
  pub collate : String → String → Bool
