-- ===== src/Responses/Canned.antt =====
-- responses/canned.go: the replies that the server sends.
use smtpx.Base.{codes}
use smtpx.Responses.Enhanced.{CannedResponse}
use smtpx.Responses.Codes.{
  bad_destination_mailbox_address, class_permanent_failure, class_success, class_transient_failure,
  destination_mailbox_address_valid, invalid_command, invalid_command_arguments,
  message_length_exceeds_administrative_limit, other_address_status,
  other_or_undefined_mail_system_status, other_or_undefined_network_or_routing_status,
  other_or_undefined_protocol_status, other_status, syntax_error, too_many_recipients,
}

abbrev pub fail_line_too_long : CannedResponse
fail_line_too_long = record {
  enhanced_code = invalid_command;
  basic_code = 554;
  class = class_permanent_failure;
  comment = codes "Line too long.";
}

abbrev pub fail_nested_mail_cmd : CannedResponse
fail_nested_mail_cmd = record {
  enhanced_code = invalid_command;
  basic_code = 503;
  class = class_permanent_failure;
  comment = codes "GetError: nested MAIL command";
}

abbrev pub rejected_sender_mail_cmd : CannedResponse
rejected_sender_mail_cmd = record {
  enhanced_code = invalid_command_arguments;
  basic_code = 553;
  class = class_permanent_failure;
  comment = codes "Sender address rejected: Access denied";
}

abbrev pub rejected_rcpt_cmd : CannedResponse
rejected_rcpt_cmd = record {
  enhanced_code = invalid_command_arguments;
  basic_code = 553;
  class = class_permanent_failure;
  comment = codes "Recipient address rejected: Access denied";
}

abbrev pub success_mail_cmd : CannedResponse
success_mail_cmd = record {
  enhanced_code = other_address_status;
  basic_code = 0;
  class = class_success;
  comment = codes "";
}

abbrev pub success_rcpt_cmd : CannedResponse
success_rcpt_cmd = record {
  enhanced_code = destination_mailbox_address_valid;
  basic_code = 0;
  class = class_success;
  comment = codes "";
}

abbrev pub success_reset_cmd : CannedResponse
success_reset_cmd = success_mail_cmd

abbrev pub success_noop_cmd : CannedResponse
success_noop_cmd = record {
  enhanced_code = other_status;
  basic_code = 0;
  class = class_success;
  comment = codes "";
}

abbrev pub success_verify_cmd : CannedResponse
success_verify_cmd = record {
  enhanced_code = other_or_undefined_protocol_status;
  basic_code = 252;
  class = class_success;
  comment = codes "Cannot verify user";
}

abbrev pub error_too_many_recipients : CannedResponse
error_too_many_recipients = record {
  enhanced_code = too_many_recipients;
  basic_code = 452;
  class = class_transient_failure;
  comment = codes "Too many recipients";
}

abbrev pub error_relay_denied : CannedResponse
error_relay_denied = record {
  enhanced_code = bad_destination_mailbox_address;
  basic_code = 454;
  class = class_transient_failure;
  comment = codes "GetError: Relay access denied:";
}

abbrev pub success_quit_cmd : CannedResponse
success_quit_cmd = record {
  enhanced_code = other_status;
  basic_code = 221;
  class = class_success;
  comment = codes "Bye";
}

abbrev pub fail_no_sender_data_cmd : CannedResponse
fail_no_sender_data_cmd = record {
  enhanced_code = invalid_command;
  basic_code = 503;
  class = class_permanent_failure;
  comment = codes "GetError: No sender";
}

abbrev pub fail_no_recipients_data_cmd : CannedResponse
fail_no_recipients_data_cmd = record {
  enhanced_code = invalid_command;
  basic_code = 503;
  class = class_permanent_failure;
  comment = codes "GetError: No recipients";
}

abbrev pub success_data_cmd : CannedResponse
success_data_cmd = record {
  enhanced_code = codes "";
  basic_code = 354;
  class = 0;
  comment = codes "354 Enter message, ending with '.' on a line by itself";
}

abbrev pub success_start_tls_cmd : CannedResponse
success_start_tls_cmd = record {
  enhanced_code = other_status;
  basic_code = 220;
  class = class_success;
  comment = codes "Ready to start TLS";
}

abbrev pub fail_unrecognized_cmd : CannedResponse
fail_unrecognized_cmd = record {
  enhanced_code = invalid_command;
  basic_code = 554;
  class = class_permanent_failure;
  comment = codes "Unrecognized command";
}

abbrev pub fail_max_unrecognized_cmd : CannedResponse
fail_max_unrecognized_cmd = record {
  enhanced_code = invalid_command;
  basic_code = 554;
  class = class_permanent_failure;
  comment = codes "Too many unrecognized commands";
}

abbrev pub error_shutdown : CannedResponse
error_shutdown = record {
  enhanced_code = other_or_undefined_mail_system_status;
  basic_code = 421;
  class = class_transient_failure;
  comment = codes "Server is shutting down. Please try again later. Sayonara!";
}

abbrev pub fail_syntax_error : CannedResponse
fail_syntax_error = record {
  enhanced_code = syntax_error;
  basic_code = 550;
  class = class_permanent_failure;
  comment = codes "Syntax error";
}

abbrev pub fail_read_limit_exceeded_data_cmd : CannedResponse
fail_read_limit_exceeded_data_cmd = record {
  enhanced_code = message_length_exceeds_administrative_limit;
  basic_code = 550;
  class = class_permanent_failure;
  comment = codes "GetError:";
}

abbrev pub fail_message_size_exceeded : CannedResponse
fail_message_size_exceeded = record {
  enhanced_code = other_or_undefined_network_or_routing_status;
  basic_code = 552;
  class = class_permanent_failure;
  comment = codes "GetError:";
}

abbrev pub fail_read_error_data_cmd : CannedResponse
fail_read_error_data_cmd = record {
  enhanced_code = other_or_undefined_mail_system_status;
  basic_code = 451;
  class = class_transient_failure;
  comment = codes "GetError:";
}

abbrev pub fail_path_too_long : CannedResponse
fail_path_too_long = record {
  enhanced_code = invalid_command_arguments;
  basic_code = 550;
  class = class_permanent_failure;
  comment = codes "Path too long";
}

abbrev pub fail_invalid_address : CannedResponse
fail_invalid_address = record {
  enhanced_code = invalid_command_arguments;
  basic_code = 501;
  class = class_permanent_failure;
  comment = codes "Invalid address";
}

abbrev pub fail_command_not_implemented : CannedResponse
fail_command_not_implemented = record {
  enhanced_code = invalid_command;
  basic_code = 502;
  class = class_permanent_failure;
  comment = codes "Command not implemented";
}

abbrev pub fail_local_part_too_long : CannedResponse
fail_local_part_too_long = record {
  enhanced_code = invalid_command_arguments;
  basic_code = 550;
  class = class_permanent_failure;
  comment = codes "Local part too long, cannot exceed 64 characters";
}

abbrev pub fail_domain_too_long : CannedResponse
fail_domain_too_long = record {
  enhanced_code = invalid_command_arguments;
  basic_code = 550;
  class = class_permanent_failure;
  comment = codes "Domain cannot exceed 255 characters";
}

abbrev pub fail_backend_not_running : CannedResponse
fail_backend_not_running = record {
  enhanced_code = other_or_undefined_protocol_status;
  basic_code = 554;
  class = class_permanent_failure;
  comment = codes "Transaction failed - backend not running";
}

abbrev pub fail_backend_transaction : CannedResponse
fail_backend_transaction = record {
  enhanced_code = other_or_undefined_protocol_status;
  basic_code = 554;
  class = class_permanent_failure;
  comment = codes "GetError:";
}

abbrev pub success_message_queued : CannedResponse
success_message_queued = record {
  enhanced_code = other_status;
  basic_code = 250;
  class = class_success;
  comment = codes "OK: queued";
}

abbrev pub success_message_accepted : CannedResponse
success_message_accepted = record {
  enhanced_code = other_status;
  basic_code = 250;
  class = class_success;
  comment = codes "Message accepted";
}

abbrev pub fail_backend_timeout : CannedResponse
fail_backend_timeout = record {
  enhanced_code = other_or_undefined_protocol_status;
  basic_code = 554;
  class = class_permanent_failure;
  comment = codes "GetError: transaction timeout";
}

abbrev pub fail_rcpt_cmd : CannedResponse
fail_rcpt_cmd = record {
  enhanced_code = bad_destination_mailbox_address;
  basic_code = 550;
  class = class_permanent_failure;
  comment = codes "User unknown in local recipient table";
}

abbrev pub fail_mail_cmd : CannedResponse
fail_mail_cmd = record {
  enhanced_code = bad_destination_mailbox_address;
  basic_code = 550;
  class = class_permanent_failure;
  comment = codes "User unknown in local recipient table";
}
