-- ===== src/Responses/Codes.antt =====
-- responses/consts.go: the classes, the subject and detail codes, the default texts and the basic
-- codes of enhanced status codes. A Go map is an association list with distinct keys.
use smtpx.Base.{
  ℕ, Bool, List, [], ◌∷◌, Bytes, codes, equal, Option, none, some, ◌==◌, ◌&&◌, if◌then◌else◌,
}

abbrev pub class_success : ℕ
class_success = 2

abbrev pub class_transient_failure : ℕ
class_transient_failure = 4

abbrev pub class_permanent_failure : ℕ
class_permanent_failure = 5

abbrev pub other_status : Bytes
other_status = codes ".0.0"

abbrev pub other_address_status : Bytes
other_address_status = codes ".1.0"

abbrev pub bad_destination_mailbox_address : Bytes
bad_destination_mailbox_address = codes ".1.1"

abbrev pub bad_destination_system_address : Bytes
bad_destination_system_address = codes ".1.2"

abbrev pub bad_destination_mailbox_address_syntax : Bytes
bad_destination_mailbox_address_syntax = codes ".1.3"

abbrev pub destination_mailbox_address_ambiguous : Bytes
destination_mailbox_address_ambiguous = codes ".1.4"

abbrev pub destination_mailbox_address_valid : Bytes
destination_mailbox_address_valid = codes ".1.5"

abbrev pub mailbox_has_moved : Bytes
mailbox_has_moved = codes ".1.6"

abbrev pub bad_senders_mailbox_address_syntax : Bytes
bad_senders_mailbox_address_syntax = codes ".1.7"

abbrev pub bad_senders_system_address : Bytes
bad_senders_system_address = codes ".1.8"

abbrev pub other_or_undefined_mailbox_status : Bytes
other_or_undefined_mailbox_status = codes ".2.0"

abbrev pub mailbox_disabled : Bytes
mailbox_disabled = codes ".2.1"

abbrev pub mailbox_full : Bytes
mailbox_full = codes ".2.2"

abbrev pub message_length_exceeds_administrative_limit : Bytes
message_length_exceeds_administrative_limit = codes ".2.3"

abbrev pub mailing_list_expansion_problem : Bytes
mailing_list_expansion_problem = codes ".2.4"

abbrev pub other_or_undefined_mail_system_status : Bytes
other_or_undefined_mail_system_status = codes ".3.0"

abbrev pub mail_system_full : Bytes
mail_system_full = codes ".3.1"

abbrev pub system_not_accepting_network_messages : Bytes
system_not_accepting_network_messages = codes ".3.2"

abbrev pub system_not_capable_of_selected_features : Bytes
system_not_capable_of_selected_features = codes ".3.3"

abbrev pub message_too_big_for_system : Bytes
message_too_big_for_system = codes ".3.4"

abbrev pub other_or_undefined_network_or_routing_status : Bytes
other_or_undefined_network_or_routing_status = codes ".4.0"

abbrev pub no_answer_from_host : Bytes
no_answer_from_host = codes ".4.1"

abbrev pub bad_connection : Bytes
bad_connection = codes ".4.2"

abbrev pub routing_server_failure : Bytes
routing_server_failure = codes ".4.3"

abbrev pub unable_to_route : Bytes
unable_to_route = codes ".4.4"

abbrev pub network_congestion : Bytes
network_congestion = codes ".4.5"

abbrev pub routing_loop_detected : Bytes
routing_loop_detected = codes ".4.6"

abbrev pub delivery_time_expired : Bytes
delivery_time_expired = codes ".4.7"

abbrev pub other_or_undefined_protocol_status : Bytes
other_or_undefined_protocol_status = codes ".5.0"

abbrev pub invalid_command : Bytes
invalid_command = codes ".5.1"

abbrev pub syntax_error : Bytes
syntax_error = codes ".5.2"

abbrev pub too_many_recipients : Bytes
too_many_recipients = codes ".5.3"

abbrev pub invalid_command_arguments : Bytes
invalid_command_arguments = codes ".5.4"

abbrev pub wrong_protocol_version : Bytes
wrong_protocol_version = codes ".5.5"

abbrev pub other_or_undefined_media_error : Bytes
other_or_undefined_media_error = codes ".6.0"

abbrev pub media_not_supported : Bytes
media_not_supported = codes ".6.1"

abbrev pub conversion_required_and_prohibited : Bytes
conversion_required_and_prohibited = codes ".6.2"

abbrev pub conversion_required_but_not_supported : Bytes
conversion_required_but_not_supported = codes ".6.3"

abbrev pub conversion_with_loss_performed : Bytes
conversion_with_loss_performed = codes ".6.4"

abbrev pub conversion_failed : Bytes
conversion_failed = codes ".6.5"

pub record EnhancedStatusCode : Type 0 where
  pub class : ℕ
  pub subject_detail_code : Bytes

abbrev pub enhanced : ℕ → Bytes → EnhancedStatusCode
enhanced c d = record { class = c; subject_detail_code = d }

abbrev pub same_code : EnhancedStatusCode → EnhancedStatusCode → Bool
same_code a b = a.class == b.class && equal a.subject_detail_code b.subject_detail_code

-- The read of a map whose keys are enhanced codes.
unfoldable pub find_code {ℓ} :
    {A : Type ℓ} → EnhancedStatusCode → List (EnhancedStatusCode × A) → Option A
unfolding equal
find_code e [] = none
find_code e ((k, v) ∷ rest) = if same_code e k then some v else find_code e rest

unfoldable pub default_texts : List (EnhancedStatusCode × Bytes)
default_texts =
    (enhanced class_success (codes ".0.0"), codes "OK")
    ∷ (enhanced class_success (codes ".1.0"), codes "OK")
    ∷ (enhanced class_success (codes ".1.5"), codes "OK")
    ∷ (enhanced class_success (codes ".5.0"), codes "OK")
    ∷ (enhanced class_transient_failure (codes ".5.3"), codes "Too many recipients")
    ∷ (enhanced class_transient_failure (codes ".5.4"), codes "Relay access denied")
    ∷ (enhanced class_permanent_failure (codes ".5.1"), codes "Invalid command")
    ∷ []

unfoldable pub code_map : List (EnhancedStatusCode × ℕ)
code_map =
    (enhanced class_success other_address_status, 250)
    ∷ (enhanced class_success destination_mailbox_address_valid, 250)
    ∷ (enhanced class_success other_or_undefined_mail_system_status, 250)
    ∷ (enhanced class_success other_or_undefined_protocol_status, 250)
    ∷ (enhanced class_success conversion_with_loss_performed, 250)
    ∷ (enhanced class_success (codes ".6.8"), 252)
    ∷ (enhanced class_success (codes ".7.0"), 220)
    ∷ (enhanced class_transient_failure bad_destination_mailbox_address, 451)
    ∷ (enhanced class_transient_failure bad_senders_system_address, 451)
    ∷ (enhanced class_transient_failure mailing_list_expansion_problem, 450)
    ∷ (enhanced class_transient_failure other_or_undefined_mail_system_status, 421)
    ∷ (enhanced class_transient_failure mail_system_full, 452)
    ∷ (enhanced class_transient_failure system_not_accepting_network_messages, 453)
    ∷ (enhanced class_transient_failure no_answer_from_host, 451)
    ∷ (enhanced class_transient_failure bad_connection, 421)
    ∷ (enhanced class_transient_failure routing_server_failure, 451)
    ∷ (enhanced class_transient_failure network_congestion, 451)
    ∷ (enhanced class_transient_failure other_or_undefined_protocol_status, 451)
    ∷ (enhanced class_transient_failure invalid_command, 430)
    ∷ (enhanced class_transient_failure too_many_recipients, 452)
    ∷ (enhanced class_transient_failure invalid_command_arguments, 451)
    ∷ (enhanced class_transient_failure (codes ".7.0"), 450)
    ∷ (enhanced class_transient_failure (codes ".7.1"), 451)
    ∷ (enhanced class_transient_failure (codes ".7.12"), 422)
    ∷ (enhanced class_transient_failure (codes ".7.15"), 450)
    ∷ (enhanced class_transient_failure (codes ".7.24"), 451)
    ∷ (enhanced class_permanent_failure bad_destination_mailbox_address, 550)
    ∷ (enhanced class_permanent_failure bad_destination_mailbox_address_syntax, 501)
    ∷ (enhanced class_permanent_failure bad_senders_system_address, 501)
    ∷ (enhanced class_permanent_failure (codes ".1.10"), 556)
    ∷ (enhanced class_permanent_failure mailbox_full, 552)
    ∷ (enhanced class_permanent_failure message_length_exceeds_administrative_limit, 552)
    ∷ (enhanced class_permanent_failure other_or_undefined_mail_system_status, 550)
    ∷ (enhanced class_permanent_failure message_too_big_for_system, 552)
    ∷ (enhanced class_permanent_failure routing_server_failure, 550)
    ∷ (enhanced class_permanent_failure other_or_undefined_protocol_status, 501)
    ∷ (enhanced class_permanent_failure invalid_command, 500)
    ∷ (enhanced class_permanent_failure syntax_error, 500)
    ∷ (enhanced class_permanent_failure invalid_command_arguments, 501)
    ∷ (enhanced class_permanent_failure (codes ".5.6"), 500)
    ∷ (enhanced class_permanent_failure conversion_required_but_not_supported, 554)
    ∷ (enhanced class_permanent_failure (codes ".6.6"), 554)
    ∷ (enhanced class_permanent_failure (codes ".6.7"), 553)
    ∷ (enhanced class_permanent_failure (codes ".6.8"), 550)
    ∷ (enhanced class_permanent_failure (codes ".6.9"), 550)
    ∷ (enhanced class_permanent_failure (codes ".7.0"), 550)
    ∷ (enhanced class_permanent_failure (codes ".7.1"), 551)
    ∷ (enhanced class_permanent_failure (codes ".7.2"), 550)
    ∷ (enhanced class_permanent_failure (codes ".7.4"), 504)
    ∷ (enhanced class_permanent_failure (codes ".7.8"), 554)
    ∷ (enhanced class_permanent_failure (codes ".7.9"), 534)
    ∷ (enhanced class_permanent_failure (codes ".7.10"), 523)
    ∷ (enhanced class_permanent_failure (codes ".7.11"), 524)
    ∷ (enhanced class_permanent_failure (codes ".7.13"), 525)
    ∷ (enhanced class_permanent_failure (codes ".7.14"), 535)
    ∷ (enhanced class_permanent_failure (codes ".7.15"), 550)
    ∷ (enhanced class_permanent_failure (codes ".7.16"), 552)
    ∷ (enhanced class_permanent_failure (codes ".7.17"), 500)
    ∷ (enhanced class_permanent_failure (codes ".7.18"), 500)
    ∷ (enhanced class_permanent_failure (codes ".7.19"), 500)
    ∷ (enhanced class_permanent_failure (codes ".7.20"), 550)
    ∷ (enhanced class_permanent_failure (codes ".7.21"), 550)
    ∷ (enhanced class_permanent_failure (codes ".7.22"), 550)
    ∷ (enhanced class_permanent_failure (codes ".7.23"), 550)
    ∷ (enhanced class_permanent_failure (codes ".7.24"), 550)
    ∷ (enhanced class_permanent_failure (codes ".7.25"), 550)
    ∷ (enhanced class_permanent_failure (codes ".7.26"), 550)
    ∷ (enhanced class_permanent_failure (codes ".7.27"), 550)
    ∷ []
